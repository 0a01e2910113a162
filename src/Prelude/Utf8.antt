-- ===== src/Prelude/Utf8.antt =====
-- Go's reading of a string as UTF-8: `utf8.ValidString`, and the runes that `range` yields over a
-- valid string.
use stratus_backend.Prelude.Text.{Bytes}
use stratus_backend.Prelude.Tests.{◌==◌, ltb, leb, if◌then◌else◌}
use Prim.Native.Nat.{ℕ, ◌+◌, ◌*◌, ◌-◌}
use mathlib.Core.Bool.{◌&&◌}
use mathlib.Core.Path.{◌≡◌, refl}
use mathlib.Core.Option.{Option, none, some}
use mathlib.Core.List.{List, [], ◌∷◌}

-- What the bytes so far ask of the next one: nothing, or `left` more bytes, the next between two
-- bounds, for a rune whose leading bits are `acc`.
pub data Expect : Type 0 where
  start : Expect
  more : ℕ → ℕ → ℕ → ℕ → Expect

-- The table of first bytes of RFC 3629: no overlong form, no surrogate, nothing past U+10FFFF.
first : ℕ → Option Expect
first b =
    if ltb b 0xc2
    then none
    else if leb b 0xdf
    then some (more 1 0x80 0xbf (b - 0xc0))
    else if b == 0xe0
    then some (more 2 0xa0 0xbf (b - 0xe0))
    else if b == 0xed
    then some (more 2 0x80 0x9f (b - 0xe0))
    else if leb b 0xef
    then some (more 2 0x80 0xbf (b - 0xe0))
    else if b == 0xf0
    then some (more 3 0x90 0xbf (b - 0xf0))
    else if leb b 0xf3
    then some (more 3 0x80 0xbf (b - 0xf0))
    else if b == 0xf4
    then some (more 3 0x80 0x8f (b - 0xf0))
    else none

consed : ℕ → Option (List ℕ) → Option (List ℕ)
consed r none = none
consed r (some rs) = some (r ∷ rs)

-- The runes of a text, or `none` for one that is not UTF-8.
decode_from : Expect → Bytes → Option (List ℕ)
unfolding first consed
decode_from start [] = some []
decode_from (more n lo hi acc) [] = none
decode_from start (b ∷ s) =
    let ascii = consed b (decode_from start s) in
    if ltb b 0x80 then ascii else elim (first b) [ none ↦ none | some e ↦ decode_from e s ]
decode_from (more n lo hi acc) (b ∷ s) =
    let rune = acc * 64 + (b - 0x80) in
    let last = consed rune (decode_from start s) in
    let next = decode_from (more (n - 1) 0x80 0xbf rune) s in
    if leb lo b && leb b hi then (if n == 1 then last else next) else none

unfoldable pub runes : Bytes → Option (List ℕ)
unfolding decode_from
runes s = decode_from start s

euro : runes (b'a' ∷ 0xe2 ∷ 0x82 ∷ 0xac ∷ []) ≡ some (b'a' ∷ 0x20ac ∷ [])
unfolding runes
euro = refl

overlong : runes (0xc0 ∷ 0x80 ∷ []) ≡ none
unfolding runes
overlong = refl
