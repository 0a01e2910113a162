-- ===== src/Storage/Range.antt =====
-- The ranges of an object: internal/storage/range.go. An int64 is an integer; no sum is formed, and
-- the two differences stay between 0 and the size.
pub mod Laws
pub mod Bytes
use stratus_backend.Prelude.{ℕ, Bool, true, false, ◌≡◌, refl, if◌then◌else◌}
use stratus_backend.Prelude.Int.{ℤ, pos, ◌-ℤ◌, ltb_ℤ, leb_ℤ, min_ℤ}
use stratus_backend.Prelude.Result.{Result, ok, err}

pub record Range : Type 0 where
  pub off : ℤ
  pub n : ℤ
  pub has_len : Bool
  pub suffix : Bool

-- All, From, Slice and Suffix, the only ways to build a Range.
abbrev pub all : Range
all = record { off = pos 0; n = pos 0; has_len = false; suffix = false }

abbrev pub from : ℤ → Range
from off = record { off = off; n = pos 0; has_len = false; suffix = false }

abbrev pub slice : ℤ → ℤ → Range
slice off n = record { off = off; n = n; has_len = true; suffix = false }

abbrev pub suffix_of : ℤ → Range
suffix_of n = record { off = pos 0; n = n; has_len = true; suffix = true }

-- Why a range is refused: one constructor for each message that wraps ErrInvalidRange.
pub data RangeFault : Type 0 where
  negative_size suffix_not_positive negative_offset past_the_end negative_length : RangeFault

-- Resolve
unfoldable pub resolve : Range → ℤ → Result RangeFault (ℤ × ℤ)
resolve r size =
    if ltb_ℤ size (pos 0)
    then err negative_size
    else if r.suffix
    then (if leb_ℤ r.n (pos 0)
        then err suffix_not_positive
        else if leb_ℤ size r.n
        then ok (pos 0, size)
        else ok (size -ℤ r.n, r.n))
    else if ltb_ℤ r.off (pos 0)
    then err negative_offset
    else if ltb_ℤ size r.off
    then err past_the_end
    else if r.has_len
    then (if ltb_ℤ r.n (pos 0) then err negative_length else ok (r.off, min_ℤ r.n (size -ℤ r.off)))
    else ok (r.off, size -ℤ r.off)

suffix_of_ten : resolve (suffix_of (pos 4)) (pos 10) ≡ ok (pos 6, pos 4)
unfolding resolve ◌-ℤ◌
suffix_of_ten = refl
