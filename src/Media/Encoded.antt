-- ===== src/Media/Encoded.antt =====
-- The segments of a film that is encoded again: EncodedSegments, EncodedName and ParseEncoded of
-- internal/media/stream/encode.go. The loop runs on fuel, one step for each six seconds and one more.
pub mod Names
use stratus_backend.Prelude.{
  ℕ, zero, suc, ◌+◌, ◌*◌, ◌/◌, ◌^◌, ◌≤◌, ◌<◌, ◌≡◌, refl, sym, ap, ◌∙◌, Bool, true, false, ◌||◌, not,
  List, [], ◌∷◌, ◌++◌, Option, none, some, if◌then◌else◌, arith, inl, inr, Bool-cases, lt→ltb,
  ltb→lt, not-ltb→le, le→not-ltb,
}
use stratus_backend.Prelude.Int.{
  ℤ, pos, negsuc, pos_part, ◌+ℤ◌, ◌-ℤ◌, ◌≤ℤ◌, ◌<ℤ◌, ltb_ℤ, leb_ℤ, min_ℤ, int_laws, min_ℤ_cases,
}
use stratus_backend.Prelude.Text.{Bytes, codes, cut, cut_prefix, cut_suffix, has_prefix}
use stratus_backend.Prelude.Decimal.{format_int, parse_int}
use stratus_backend.Media.Segments.{Segment, segment_target}
use stratus_backend.Media.Segments.Chain.{Chain, Chain-cons}
use stratus_backend.Media.Segments.Names.{milliseconds, to_duration}

abbrev pub encoded_target : ℤ
encoded_target = pos 6_000_000_000

abbrev encoded_piece : ℤ → ℤ → Segment
encoded_piece start duration = record {
  start = start;
  length_of = min_ℤ encoded_target (duration -ℤ start);
  frames = pos 0;
  seek = pos 0;
}

unfoldable pub encoded_from : ℕ → ℤ → ℤ → List Segment
encoded_from zero start duration = []
encoded_from (suc k) start duration =
    let rest = encoded_from k (start +ℤ encoded_target) duration in
    if ltb_ℤ start duration then encoded_piece start duration ∷ rest else []

-- EncodedSegments
unfoldable pub encoded_segments : ℤ → List Segment
unfolding encoded_from
encoded_segments duration = encoded_from (suc (pos_part duration / 6_000_000_000)) (pos 0) duration

-- EncodedName
unfoldable pub encoded_name : Segment → Bytes
encoded_name s =
    codes "h"
    ++ (format_int (milliseconds s.start)
        ++ (codes "-" ++ (format_int (milliseconds s.length_of) ++ codes ".ts")))

-- strings.TrimPrefix(name, "h")
unfoldable pub trim_h : Bytes → Bytes
trim_h name = elim (cut_prefix name (codes "h")) [ none ↦ name | some rest ↦ rest ]

-- The numbers of a name, where they may be asked for. The length is tested as an int64 of nanoseconds.
unfoldable pub encoded_of : ℤ → ℤ → Option Segment
encoded_of s l =
    if (ltb_ℤ s (pos 0) || leb_ℤ l (pos 0)) || ltb_ℤ encoded_target (to_duration l)
    then none
    else some
        (record { start = to_duration s; length_of = to_duration l; frames = pos 0; seek = pos 0 })

-- ParseEncoded, `none` for ErrNoEncode.
unfoldable pub parse_encoded : Bytes → Option Segment
unfolding encoded_of
parse_encoded name = elim (cut_suffix (trim_h name) (codes ".ts")) [
  | none ↦ none
  | some base ↦ elim (cut base b'-') [
    | none ↦ none
    | some (start, length_of) ↦
        if not (has_prefix name (codes "h")) then none else elim (parse_int start) [
          | none ↦ none
          | some s ↦ elim (parse_int length_of) [ none ↦ none | some l ↦ encoded_of s l ]
        ]
  ]
]

nothing_left : (k : ℕ) (start duration : ℤ) → duration ≤ℤ start → encoded_from k start duration ≡ []
unfolding encoded_from
nothing_left zero start duration h = refl
nothing_left (suc k) start duration h = rw (le→not-ltb _ _ h)

encoded_from-Chain :
    (k : ℕ) (start duration : ℤ)
    → start <ℤ duration
    → duration ≤ℤ start +ℤ pos (k * 6_000_000_000)
    → Chain start duration (encoded_from k start duration)
unfolding encoded_from
encoded_from-Chain zero start duration h l = absurd (omega int_laws)
encoded_from-Chain (suc k) start duration h l =
    let next = start +ℤ encoded_target in
    elim (Bool-cases (ltb_ℤ next duration)) [
      | inl e ↦
          let n : next <ℤ duration = ltb→lt _ _ e in
          let m : min_ℤ encoded_target (duration -ℤ start) ≡ encoded_target =
            elim (min_ℤ_cases encoded_target (duration -ℤ start)) [
              | inl (q, a) ↦ q
              | inr (q, a) ↦ absurd (omega (int_laws, n, a))
            ] in
          rw (lt→ltb _ _ h) (
            Chain-cons start duration (encoded_piece start duration) (encoded_from k next duration)
              refl (rw m (omega arith))
              (rw m (encoded_from-Chain k next duration n (omega int_laws))))
      | inr e ↦
          let n : duration ≤ℤ next = not-ltb→le _ _ e in
          let m : min_ℤ encoded_target (duration -ℤ start) ≡ duration -ℤ start =
            elim (min_ℤ_cases encoded_target (duration -ℤ start)) [
              | inl (q, a) ↦ q ∙ omega int_laws
              | inr (q, a) ↦ q
            ] in
          rw (lt→ltb _ _ h, nothing_left k next duration n, m)
            (refl, omega int_laws, omega int_laws)
    ]

-- The segments of a film that lasts at all follow one another from its start to its end: each of them
-- six seconds long at least, but the last, which is not empty.
pub encoded_segments-Chain :
    (duration : ℤ) → pos 0 <ℤ duration → Chain (pos 0) duration (encoded_segments duration)
unfolding encoded_segments
encoded_segments-Chain duration h =
    encoded_from-Chain (suc (pos_part duration / 6_000_000_000)) (pos 0) duration h (omega int_laws)
