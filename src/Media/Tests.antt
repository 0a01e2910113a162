-- ===== src/Media/Tests.antt =====
-- Films at concrete keyframes.
use stratus_backend.Prelude.{
  ◌≡◌, refl, none, some, arith, true, false, [], ◌∷◌, get_or, Bool, if◌then◌else◌,
}
use stratus_backend.Prelude.Int.{wrap64, ◌*ℤ◌, ℤ, pos, negsuc, ◌-ℤ◌}
use stratus_backend.Prelude.Text.{codes, cut, cut_suffix}
use stratus_backend.Prelude.Decimal.{parse_int}
use stratus_backend.Media.Encoded.{trim_h, encoded_of}
use stratus_backend.Media.Segments.{Index, segments, countable, counted}
use stratus_backend.Media.Encoded.{
  encoded_segments, encoded_segments-Chain, encoded_name, parse_encoded,
}
use stratus_backend.Media.Encoded.Names.{parse_encoded-encoded_name}
use stratus_backend.Media.Segments.Chain.{Chain, segments-Chain}
use stratus_backend.Media.Segments.Frames.{total_frames, total_frames-segments}
use stratus_backend.Media.Segments.Names.{name_of, parse_segment, is_refused}
use stratus_backend.Media.Segments.Names.Laws.{segment, whole, parse_segment-name_of}
use stratus_backend.Media.Segments.Names.Tail.{two_keyframes, tail_of, tail_refused}

-- Twenty seconds, with keyframes at 0, 4, 7 and 13 seconds, 25 frames a second.
abbrev film : Index
film = record {
  keyframes = pos 0 ∷ pos 4_000_000_000 ∷ pos 7_000_000_000 ∷ pos 13_000_000_000 ∷ [];
  duration = pos 20_000_000_000;
  key_samples = pos 0 ∷ pos 100 ∷ pos 175 ∷ pos 325 ∷ [];
  samples = pos 500;
  frame_duration = pos 40_000_000;
}

-- The first of the two numbers.
abbrev first_of : ℤ → ℤ → ℤ
first_of a b = a

abbrev never : ℤ → ℤ → Bool
never a b = false

film-countable : countable film ≡ true
unfolding countable counted
film-countable = refl

film-counted : counted film ≡ true
unfolding counted
film-counted = refl

segments-Chain_example : Chain (pos 0) film.duration (segments first_of film)
segments-Chain_example = segments-Chain first_of film film-countable (omega arith)

total_frames-segments_example :
    total_frames (segments first_of film) ≡ film.samples -ℤ get_or film.key_samples 0 film.samples
total_frames-segments_example =
    total_frames-segments first_of film film-countable film-counted (omega arith)

parse_segment-name_of_example :
    parse_segment never (name_of (segment 7_000_000_123 6_000_000_000 150 7_150_000_000)) ≡ (
      if is_refused never
        (segment (whole 7_000_000_123) (whole 6_000_000_000) 150 (whole 7_150_000_000))
      then none
      else some (segment (whole 7_000_000_123) (whole 6_000_000_000) 150 (whole 7_150_000_000)))
parse_segment-name_of_example =
    parse_segment-name_of never 7_000_000_123 6_000_000_000 150 7_150_000_000 (omega arith)
      (omega arith) (omega arith) (omega arith)

tail_refused_example :
    (segments first_of (two_keyframes 7_000_000_000 7_100_000_000 175 177)
      ≡ segment 0 7_000_000_000 175 0 ∷ tail_of 7_000_000_000 7_100_000_000 175 177 ∷ [])
    × (parse_segment never (name_of (tail_of 7_000_000_000 7_100_000_000 175 177)) ≡ none)
tail_refused_example =
    tail_refused first_of never 7_000_000_000 7_100_000_000 175 177 (omega arith) (omega arith)
      (omega arith) (omega arith) (omega arith) (omega arith)

-- Thirteen seconds: two segments of six and one of one.
encoded_segments-Chain_example :
    Chain (pos 0) (pos 13_000_000_000) (encoded_segments (pos 13_000_000_000))
encoded_segments-Chain_example = encoded_segments-Chain (pos 13_000_000_000) (omega arith)

parse_encoded-encoded_name_example :
    parse_encoded (encoded_name (segment 6_000_000_000 1_000_000_123 0 0))
    ≡ some (segment (whole 6_000_000_000) (whole 1_000_000_123) 0 0)
parse_encoded-encoded_name_example =
    parse_encoded-encoded_name 6_000_000_000 1_000_000_123 (omega arith) (omega arith) (omega arith)

-- A length whose nanoseconds wrap around to a negative number passes the test on the length.
wrapped_length :
    parse_encoded (codes "h0-9223372036855.ts")
    ≡ some (record {
      start = pos 0;
      length_of = negsuc 9_223_372_036_854_551_615;
      frames = pos 0;
      seek = pos 0;
    })
unfolding parse_encoded encoded_of trim_h cut cut_suffix parse_int wrap64 ◌*ℤ◌
wrapped_length = refl
