-- ===== src/Media/Segments/Names.antt =====
-- The names of segments: `Segment.Name` and `ParseSegment` of internal/media/stream/hls.go. The
-- comparison of a frame count with a number of seconds in floats is a parameter.
pub mod Laws
pub mod Tail
use stratus_backend.Prelude.{
  ℕ, ◌/◌, ◌≡◌, refl, Bool, true, false, ◌||◌, ◌&&◌, List, [], ◌∷◌, ◌++◌, Option, none, some,
  if◌then◌else◌, ◌*◌, suc,
}
use stratus_backend.Prelude.Int.{ℤ, pos, negsuc, ◌+ℤ◌, ◌-ℤ◌, ltb_ℤ, leb_ℤ, sub_ℕ, ◌*ℤ◌, wrap64}
use stratus_backend.Prelude.Text.{Bytes, codes, cut_suffix, split, join}
use stratus_backend.Prelude.Decimal.{format_int, parse_int}
use stratus_backend.Media.Segments.{Segment, max_segment}

-- Duration.Milliseconds, towards zero.
unfoldable pub milliseconds : ℤ → ℤ
milliseconds (pos n) = pos (n / 1_000_000)
milliseconds (negsuc n) = sub_ℕ 0 (suc n / 1_000_000)

-- Name
unfoldable pub name_of : Segment → Bytes
name_of s =
    join
      (format_int (milliseconds s.start)
        ∷ format_int (milliseconds s.length_of)
        ∷ format_int s.frames
        ∷ format_int (milliseconds s.seek)
        ∷ [])
      b'-'
    ++ codes ".ts"

-- A part of the name: a number that is not negative.
unfoldable pub part : Bytes → Option ℤ
part p = elim (parse_int p) [ none ↦ none | some v ↦ if ltb_ℤ v (pos 0) then none else some v ]

abbrev pub millisecond : ℤ
millisecond = pos 1_000_000

-- time.Duration(v) * time.Millisecond, in an int64.
abbrev pub to_duration : ℤ → ℤ
to_duration v = wrap64 (v *ℤ millisecond)

abbrev pub segment_of : ℤ → ℤ → ℤ → ℤ → Segment
segment_of start length_of frames seek = record {
  start = to_duration start;
  length_of = to_duration length_of;
  frames = frames;
  seek = to_duration seek;
}

-- `float64(s.Frames) > s.Length.Seconds()*maxFrameRate+1`
module _ (too_fast : ℤ → ℤ → Bool) where
  -- What is asked of the numbers of a name.
  unfoldable pub is_refused : Segment → Bool
  is_refused s =
      ((leb_ℤ s.length_of (pos 0) || ltb_ℤ max_segment s.length_of)
        || (leb_ℤ s.frames (pos 0) || too_fast s.frames s.length_of))
      || (ltb_ℤ s.seek s.start || ltb_ℤ (wrap64 (s.start +ℤ s.length_of)) s.seek)

  unfoldable pub checked : Segment → Option Segment
  checked s = if is_refused s then none else some s

  unfoldable pub with_parts : List Bytes → Option Segment
  with_parts (a ∷ b ∷ c ∷ d ∷ []) = elim (part a) [
    | none ↦ none
    | some start ↦ elim (part b) [
      | none ↦ none
      | some length_of ↦ elim (part c) [
        | none ↦ none
        | some frames ↦ elim (part d) [
          | none ↦ none
          | some seek ↦ checked (segment_of start length_of frames seek)
        ]
      ]
    ]
  ]
  with_parts _ = none

  -- ParseSegment, `none` for ErrNoHLS.
  unfoldable pub parse_segment : Bytes → Option Segment
  parse_segment name = elim (cut_suffix name (codes ".ts")) [
    | none ↦ none
    | some base ↦ with_parts (split base b'-')
  ]
