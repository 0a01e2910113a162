-- ===== src/Storage/Range/Bytes.antt =====
-- The bytes that a resolved range selects, against what its constructor asks for.
use stratus_backend.Prelude.{
  ℕ, ◌-◌, ◌≤◌, ◌<◌, ◌≡◌, refl, sym, ap, true, ◌∙◌, inl, inr, Bool-cases, arith, List, length, take,
  drop, take_all, length-drop, ltb, leb, ltb→lt, leb→le,
}
use stratus_backend.Prelude.Int.{pos, ◌-ℤ◌}
use stratus_backend.Prelude.Result.{ok}
use stratus_backend.Storage.Range.{Range, resolve, all, from, slice, suffix_of}

-- What a caller can ask for with no negative number.
pub data Request : Type 0 where
  everything : Request
  behind : ℕ → Request
  between : ℕ → ℕ → Request
  last : ℕ → Request

abbrev pub range_of : Request → Range
range_of everything = all
range_of (behind off) = from (pos off)
range_of (between off n) = slice (pos off) (pos n)
range_of (last n) = suffix_of (pos n)

-- An offset at the end is allowed, and a suffix asks for a byte at least.
abbrev pub IsSatisfiable : Request → ℕ → Type 0
IsSatisfiable everything size = Unit
IsSatisfiable (behind off) size = off ≤ size
IsSatisfiable (between off n) size = off ≤ size
IsSatisfiable (last n) size = 0 < n

abbrev pub wanted {ℓ} : {A : Type ℓ} → Request → List A → List A
wanted everything xs = xs
wanted (behind off) xs = drop off xs
wanted (between off n) xs = take n (drop off xs)
wanted (last n) xs = drop (length xs - n) xs

take-drop_rest {ℓ} :
    {A : Type ℓ} (k o : ℕ) (xs : List A) → length xs ≤ k → take (k - o) (drop o xs) ≡ drop o xs
take-drop_rest k o xs h = take_all (k - o) (drop o xs) (omega (arith, length-drop o xs))

module _ {ℓ} {A : Type ℓ} (xs : List A) where
  abbrev Selects : Request → Type ℓ
  Selects q =
      (o : ℕ) × (k : ℕ) × (resolve (range_of q) (pos (length xs)) ≡ ok (pos o, pos k))
      × (take k (drop o xs) ≡ wanted q xs)

  select_everything : Selects everything
  unfolding resolve ◌-ℤ◌
  select_everything = (0, length xs, ground arith, take_all (length xs) xs (omega arith))

  select_behind : (o : ℕ) → o ≤ length xs → Selects (behind o)
  unfolding resolve ◌-ℤ◌
  select_behind o h =
      (o, length xs - o, ground arith, take-drop_rest (length xs) o xs (omega arith))

  select_between : (o n : ℕ) → o ≤ length xs → Selects (between o n)
  unfolding resolve ◌-ℤ◌
  select_between o n h = elim (Bool-cases (ltb (length xs - o) n)) [
    | inl e ↦ (
      o,
      length xs - o,
      ground arith,
      take-drop_rest (length xs) o xs (omega arith)
          ∙ sym (take_all n (drop o xs) (omega (arith, length-drop o xs, ltb→lt _ _ e))),
    )
    | inr e ↦ (o, n, ground arith, refl)
  ]

  none_left : (n : ℕ) → leb (length xs) n ≡ true → 0 ≡ length xs - n
  none_left n e = omega (arith, leb→le _ _ e)

  select_last : (n : ℕ) → 0 < n → Selects (last n)
  unfolding resolve ◌-ℤ◌
  select_last n h = elim (Bool-cases (leb (length xs) n)) [
    | inl e ↦ (
      0,
      length xs,
      ground arith,
      take_all (length xs) xs (omega arith) ∙ ap (λ (k : ℕ). drop k xs) (none_left n e),
    )
    | inr e ↦ (
      length xs - n,
      n,
      ground arith,
      take_all n (drop (length xs - n) xs) (omega (arith, length-drop (length xs - n) xs)),
    )
  ]

-- A request that fits the object resolves, and the bytes it resolves to are those that were asked
-- for: all of them, those from an offset on, at most `n` from an offset on, or the last `n`.
pub resolve-wanted {ℓ} :
    {A : Type ℓ} (xs : List A) (q : Request)
    → IsSatisfiable q (length xs)
    → (o : ℕ) × (k : ℕ) × (resolve (range_of q) (pos (length xs)) ≡ ok (pos o, pos k))
      × (take k (drop o xs) ≡ wanted q xs)
resolve-wanted xs everything h = select_everything xs
resolve-wanted xs (behind o) h = select_behind xs o h
resolve-wanted xs (between o n) h = select_between xs o n h
resolve-wanted xs (last n) h = select_last xs n h
