-- ===== src/Media/Segments/Names/Tail.antt =====
-- A film whose last keyframe stands near its end: the playlist names a last segment whose seek lies
-- behind it, and the name is refused when a player asks for it.
use stratus_backend.Prelude.{
  ℕ, ◌+◌, ◌-◌, ◌^◌, ◌≤◌, ◌<◌, ◌≡◌, ap, ◌∙◌, Bool, true, [], ◌∷◌, none, arith, lt→ltb,
}
use stratus_backend.Prelude.Int.{ℤ, pos, ◌+ℤ◌, ◌-ℤ◌, wrap64, wrap64-pos, +ℤ-pos, ltb_ℤ}
use stratus_backend.Media.Segments.{
  Index, Segment, segments, counted, countable, cut_from, frames_between, seek_at,
}
use stratus_backend.Media.Segments.Names.{name_of, parse_segment, is_refused}
use stratus_backend.Media.Segments.Names.Laws.{segment, whole, parse_segment-name_of}

-- Keyframes at 0 and at k, the second being frame m of n, in a film that lasts d.
abbrev pub two_keyframes : ℕ → ℕ → ℕ → ℕ → Index
two_keyframes k d m n = record {
  keyframes = pos 0 ∷ pos k ∷ [];
  duration = pos d;
  key_samples = pos 0 ∷ pos m ∷ [];
  samples = pos n;
  frame_duration = pos 0;
}

abbrev pub tail_of : ℕ → ℕ → ℕ → ℕ → Segment
tail_of k d m n = segment k (d - k) (n - m) (k + 150_000_000)

seek_past_end :
    (too_fast : ℤ → ℤ → Bool) (a b f c : ℕ)
    → a + b < 2 ^ 63
    → a + b < c
    → is_refused too_fast (segment a b f c) ≡ true
unfolding is_refused
seek_past_end too_fast a b f c h l =
    let e : wrap64 (pos a +ℤ pos b) ≡ pos (a + b) = ap wrap64 (+ℤ-pos a b) ∙ wrap64-pos (a + b) h in
    let last : ltb_ℤ (wrap64 (pos a +ℤ pos b)) (pos c) ≡ true =
      rw e (lt→ltb (a + b + 0) (c + 0) (omega arith)) in
    ground (arith, last)

tail_segments :
    (ratio : ℤ → ℤ → ℤ) (k d m n : ℕ)
    → 6_000_000_000 ≤ k
    → k < d
    → m < n
    → segments ratio (two_keyframes k d m n) ≡ segment 0 k m 0 ∷ tail_of k d m n ∷ []
unfolding segments countable counted cut_from frames_between seek_at ◌+ℤ◌ ◌-ℤ◌
tail_segments ratio k d m n h l q = ground arith

-- A film with keyframes at its start and, six seconds or more later, less than 150 milliseconds
-- before its end: the second of its two segments has a name that is refused.
pub tail_refused :
    (ratio : ℤ → ℤ → ℤ) (too_fast : ℤ → ℤ → Bool) (k d m n : ℕ)
    → 6_000_000_000 ≤ k
    → k < d
    → d < k + 150_000_000
    → m < n
    → n < 2 ^ 63
    → d < 2 ^ 62
    → (segments ratio (two_keyframes k d m n) ≡ segment 0 k m 0 ∷ tail_of k d m n ∷ [])
      × (parse_segment too_fast (name_of (tail_of k d m n)) ≡ none)
tail_refused ratio too_fast k d m n h l near q u v = (
  tail_segments ratio k d m n h l q,
  rw (
    parse_segment-name_of too_fast k (d - k) (n - m) (k + 150_000_000) (omega arith) (omega arith)
        (omega arith) (omega arith),
    seek_past_end too_fast (whole k) (whole (d - k)) (n - m) (whole (k + 150_000_000)) (omega arith)
        (omega arith),
  ),
)
