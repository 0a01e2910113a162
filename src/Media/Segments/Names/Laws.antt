-- ===== src/Media/Segments/Names/Laws.antt =====
-- What a name is read back as.
use stratus_backend.Prelude.{
  ℕ, ◌+◌, ◌*◌, ◌/◌, ◌^◌, ◌<◌, ◌≡◌, refl, le→not-ltb, List, ◌++◌, Bool, [], ◌∷◌, none, some, arith,
  if◌then◌else◌,
}
use stratus_backend.Prelude.Int.{ℤ, pos, *ℤ-pos, wrap64-pos}
use stratus_backend.Prelude.Text.{Bytes, codes, Lacks, cut_suffix-append, split, split-join, join}
use stratus_backend.Prelude.Decimal.{format_int, parse_int-format_int, format_int-digits}
use stratus_backend.Media.Segments.{Segment}
use stratus_backend.Media.Segments.Names.{
  milliseconds, name_of, part, to_duration, segment_of, is_refused, checked, with_parts,
  parse_segment,
}

-- A segment with nothing negative in it, that an int64 holds.
abbrev pub segment : ℕ → ℕ → ℕ → ℕ → Segment
segment start length_of frames seek = record {
  start = pos start;
  length_of = pos length_of;
  frames = pos frames;
  seek = pos seek;
}

abbrev pub whole : ℕ → ℕ
whole n = n / 1_000_000 * 1_000_000

part-format_int : (n : ℕ) → n < 2 ^ 63 → part (format_int (pos n)) ≡ some (pos n)
unfolding part
part-format_int n h =
    rw (parse_int-format_int (pos n) h, part) (rw (le→not-ltb (n + 0) 0 (omega arith)))

pub to_duration-whole : (n : ℕ) → n < 2 ^ 63 → to_duration (pos (n / 1_000_000)) ≡ pos (whole n)
to_duration-whole n h = rw (*ℤ-pos (n / 1_000_000) 1_000_000, wrap64-pos (whole n) (omega arith))

four : ℕ → ℕ → ℕ → ℕ → List Bytes
four a b c d =
    format_int (pos a) ∷ format_int (pos b) ∷ format_int (pos c) ∷ format_int (pos d) ∷ []

split-four : (a b c d : ℕ) → split (join (four a b c d) b'-') b'-' ≡ four a b c d
unfolding four
split-four a b c d =
    split-join (format_int (pos a))
      (format_int (pos b) ∷ format_int (pos c) ∷ format_int (pos d) ∷ []) b'-'
      (dashless a, (dashless b, (dashless c, (dashless d, tt))))
  where
    dashless : (n : ℕ) → Lacks b'-' (format_int (pos n))
    dashless n = format_int-digits n b'-' (omega arith)

name_of-four :
    (a b c d : ℕ)
    → name_of (segment a b c d)
      ≡ join (four (a / 1_000_000) (b / 1_000_000) c (d / 1_000_000)) b'-' ++ codes ".ts"
unfolding name_of milliseconds four
name_of-four a b c d = refl

module _ (too_fast : ℤ → ℤ → Bool) where
  with_parts-four :
      (a b c d : ℕ)
      → a < 2 ^ 63
      → b < 2 ^ 63
      → c < 2 ^ 63
      → d < 2 ^ 63
      → with_parts too_fast (four a b c d)
        ≡ checked too_fast (segment_of (pos a) (pos b) (pos c) (pos d))
  unfolding with_parts four
  with_parts-four a b c d ha hb hc hd = rw (
    part-format_int a ha,
    part-format_int b hb,
    part-format_int c hc,
    part-format_int d hd,
    with_parts,
  )

  -- The name of a segment whose numbers are not negative is read back as that segment with its times
  -- cut to the millisecond, unless the checks on what a name may ask for refuse it.
  pub parse_segment-name_of :
      (a b c d : ℕ)
      → a < 2 ^ 63
      → b < 2 ^ 63
      → c < 2 ^ 63
      → d < 2 ^ 63
      → parse_segment too_fast (name_of (segment a b c d)) ≡ (
          if is_refused too_fast (segment (whole a) (whole b) c (whole d))
          then none
          else some (segment (whole a) (whole b) c (whole d)))
  unfolding parse_segment checked
  parse_segment-name_of a b c d ha hb hc hd = rw (
    name_of-four a b c d,
    cut_suffix-append (join (four (a / 1_000_000) (b / 1_000_000) c (d / 1_000_000)) b'-')
        (codes ".ts"),
    split-four (a / 1_000_000) (b / 1_000_000) c (d / 1_000_000),
    with_parts-four (a / 1_000_000) (b / 1_000_000) c (d / 1_000_000) (omega arith) (omega arith) hc
        (omega arith),
    to_duration-whole a ha,
    to_duration-whole b hb,
    to_duration-whole d hd,
    parse_segment,
  )
