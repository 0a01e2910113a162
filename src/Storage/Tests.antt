-- ===== src/Storage/Tests.antt =====
-- Keys and ranges at concrete values.
use stratus_backend.Prelude.{ℕ, ◌≡◌, ◌↔◌, refl, none, arith, List, [], ◌∷◌, take, drop, length}
use stratus_backend.Prelude.Int.{pos, ◌+ℤ◌, ◌-ℤ◌, ◌≤ℤ◌}
use stratus_backend.Prelude.Text.{codes}
use stratus_backend.Prelude.Result.{ok}
use stratus_backend.Storage.Key.{validate_key}
use stratus_backend.Storage.Key.Laws.{IsKey, validate_key-none}
use stratus_backend.Storage.Range.{resolve, slice}
use stratus_backend.Storage.Range.Laws.{resolve_bounds}
use stratus_backend.Storage.Range.Bytes.{between, range_of, wanted, resolve-wanted}

validate_key-none_example :
    (validate_key (codes "photos/2024/img.jpg") ≡ none) ↔ IsKey (codes "photos/2024/img.jpg")
validate_key-none_example = validate_key-none (codes "photos/2024/img.jpg")

resolved : resolve (slice (pos 6) (pos 9)) (pos 10) ≡ ok (pos 6, pos 4)
unfolding resolve ◌-ℤ◌
resolved = refl

resolve_bounds_example : (pos 0 ≤ℤ pos 6) × (pos 0 ≤ℤ pos 4) × (pos 6 +ℤ pos 4 ≤ℤ pos 10)
resolve_bounds_example = resolve_bounds (slice (pos 6) (pos 9)) (pos 10) resolved

abbrev object : List ℕ
object = 1 ∷ 2 ∷ 3 ∷ []

resolve-wanted_example :
    (o : ℕ) × (k : ℕ) × (resolve (range_of (between 1 5)) (pos (length object)) ≡ ok (pos o, pos k))
    × (take k (drop o object) ≡ wanted (between 1 5) object)
resolve-wanted_example = resolve-wanted object (between 1 5) (omega arith)
