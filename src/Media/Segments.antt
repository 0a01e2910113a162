-- ===== src/Media/Segments.antt =====
-- A film cut into HLS segments: internal/media/stream/hls.go, over the Index of
-- internal/media/keyframes.go. A duration is an integer of nanoseconds, and the sums stay far from
-- the ends of an int64. The rounding of a quotient of floats is a parameter.
pub mod Chain
pub mod Frames
pub mod Names
use stratus_backend.Prelude.{
  ℕ, zero, suc, ◌+◌, ◌≡◌, refl, Bool, true, false, not, ◌||◌, ◌&&◌, List, [], ◌∷◌, ◌==◌, ltb,
  if◌then◌else◌, length, get_or,
}
use stratus_backend.Prelude.Int.{ℤ, pos, ◌+ℤ◌, ◌-ℤ◌, ltb_ℤ, leb_ℤ, min_ℤ, half_ℤ}

pub record Index : Type 0 where
  pub keyframes : List ℤ
  pub duration : ℤ
  pub key_samples : List ℤ
  pub samples : ℤ
  pub frame_duration : ℤ

pub record Segment : Type 0 where
  pub start : ℤ
  pub length_of : ℤ
  pub frames : ℤ
  pub seek : ℤ

abbrev pub segment_target : ℤ
segment_target = pos 6_000_000_000

abbrev pub max_segment : ℤ
max_segment = pos 60_000_000_000

abbrev pub seek_backoff : ℤ
seek_backoff = pos 150_000_000

unfoldable pub counted : Index → Bool
counted ix = length ix.key_samples == length ix.keyframes && ltb_ℤ (pos 0) ix.samples

-- The test before the loop: is there anything to cut, and can its frames be counted?
unfoldable pub countable : Index → Bool
unfolding counted
countable ix = not (length ix.keyframes == 0) && (counted ix || ltb_ℤ (pos 0) ix.frame_duration)

-- seek: where to aim for keyframe i.
unfoldable pub seek_at : Index → ℕ → ℤ
seek_at ix i =
    if i == 0
    then pos 0
    else get_or ix.keyframes i (pos 0)
      +ℤ (if ltb (i + 1) (length ix.keyframes)
          then min_ℤ seek_backoff
              (half_ℤ (get_or ix.keyframes (i + 1) (pos 0) -ℤ get_or ix.keyframes i (pos 0)))
          else seek_backoff)

-- The keyframes that end no segment: the first, one too near the start, one past the end.
abbrev pub passed_over : Index → ℕ → ℤ → ℤ → Bool
passed_over ix i k start = (i == 0 || ltb_ℤ (k -ℤ start) segment_target) || leb_ℤ ix.duration k

-- `int(math.Round(float64(a) / float64(b)))`
module _ (rounded_ratio : ℤ → ℤ → ℤ) where
  -- frames: those between keyframe i and keyframe j, or the end, in decode order.
  unfoldable pub frames_between : Index → ℕ → ℕ → ℤ
  frames_between ix i j =
      if counted ix
      then get_or ix.key_samples j ix.samples -ℤ get_or ix.key_samples i (pos 0)
      else rounded_ratio
          (get_or ix.keyframes j (ix.duration +ℤ ix.frame_duration)
            -ℤ get_or ix.keyframes i (pos 0))
          ix.frame_duration

  -- The segment from keyframe `first`, which starts at `start`, up to `stop`, where keyframe j is.
  abbrev pub piece : Index → ℕ → ℕ → ℤ → ℤ → Segment
  piece ix first j start stop = record {
    start = start;
    length_of = stop -ℤ start;
    frames = frames_between ix first j;
    seek = seek_at ix first;
  }

  -- The loop at keyframe i, over the keyframes from there on, and the segment behind it.
  unfoldable pub cut_from : Index → ℕ → List ℤ → ℕ → ℤ → List Segment
  cut_from ix i [] first start =
      if ltb_ℤ start ix.duration
      then piece ix first (length ix.keyframes) start ix.duration ∷ []
      else []
  cut_from ix i (k ∷ ks) first start =
      let skip = cut_from ix (suc i) ks first start in
      let rest = cut_from ix (suc i) ks i k in
      if passed_over ix i k start then skip else piece ix first i start k ∷ rest

  -- Segments
  unfoldable pub segments : Index → List Segment
  unfolding cut_from
  segments ix = if countable ix then cut_from ix 0 ix.keyframes 0 (pos 0) else []
