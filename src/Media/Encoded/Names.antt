-- ===== src/Media/Encoded/Names.antt =====
-- The names of the segments of a film that is encoded again.
use stratus_backend.Prelude.{
  ℕ, ◌/◌, ◌^◌, ◌≤◌, ◌<◌, ◌≡◌, sym, ap, ◌∙◌, ◌++◌, append_assoc, some, arith,
}
use stratus_backend.Prelude.Int.{pos, wrap64}
use stratus_backend.Prelude.Text.{Bytes, codes, cut-append, cut_suffix, cut_suffix-append}
use stratus_backend.Prelude.Decimal.{format_int, parse_int-format_int, format_int-digits}
use stratus_backend.Media.Segments.Names.{milliseconds, to_duration}
use stratus_backend.Media.Segments.Names.Laws.{segment, whole, to_duration-whole}
use stratus_backend.Media.Encoded.{encoded_name, trim_h, encoded_of, parse_encoded}

base : ℕ → ℕ → Bytes
base a b = format_int (pos (a / 1_000_000)) ++ (codes "-" ++ format_int (pos (b / 1_000_000)))

encoded_name-base :
    (a b f k : ℕ) → encoded_name (segment a b f k) ≡ codes "h" ++ (base a b ++ codes ".ts")
unfolding encoded_name base milliseconds
encoded_name-base a b f k =
    ap (λ t. codes "h" ++ t)
      (sym (
        append_assoc (format_int (pos (a / 1_000_000)))
          (codes "-" ++ format_int (pos (b / 1_000_000))) (codes ".ts")))

parse_base :
    (a b : ℕ)
    → a < 2 ^ 63
    → b < 2 ^ 63
    → parse_encoded (codes "h" ++ (base a b ++ codes ".ts"))
      ≡ encoded_of (pos (a / 1_000_000)) (pos (b / 1_000_000))
unfolding parse_encoded trim_h base cut_suffix wrap64
parse_base a b ha hb = rw (
  cut_suffix-append (base a b) (codes ".ts"),
  cut-append (format_int (pos (a / 1_000_000))) (format_int (pos (b / 1_000_000))) b'-'
      (format_int-digits (a / 1_000_000) b'-' (omega arith)),
  parse_int-format_int (pos (a / 1_000_000)) (omega arith),
  parse_int-format_int (pos (b / 1_000_000)) (omega arith),
  parse_encoded,
)

-- The name of a segment of a millisecond at least and six seconds at most is read back as the segment
-- with its times cut to the millisecond.
pub parse_encoded-encoded_name :
    (a b : ℕ)
    → a < 2 ^ 63
    → 1_000_000 ≤ b
    → b ≤ 6_000_000_000
    → parse_encoded (encoded_name (segment a b 0 0)) ≡ some (segment (whole a) (whole b) 0 0)
unfolding encoded_of
parse_encoded-encoded_name a b ha lo hi =
    let e : to_duration (pos (a / 1_000_000)) ≡ pos (whole a) = to_duration-whole a ha in
    let f : to_duration (pos (b / 1_000_000)) ≡ pos (whole b) = to_duration-whole b (omega arith) in
    ap parse_encoded (encoded_name-base a b 0 0)
    ∙ parse_base a b ha (omega arith)
    ∙ rw (e, f) (ground arith)
