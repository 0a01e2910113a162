-- ===== src/Media/Segments/Frames.antt =====
-- Every frame of a film is in one segment.
use stratus_backend.Prelude.{
  ℕ, zero, suc, ◌+◌, ◌<◌, ◌≡◌, refl, true, List, [], ◌∷◌, arith, inl, inr, Bool-cases, get_or,
  length, lt→ltb,
}
use stratus_backend.Prelude.Int.{ℤ, pos, ◌+ℤ◌, ◌-ℤ◌, ◌<ℤ◌, int_laws}
use stratus_backend.Media.Segments.{
  Index, Segment, counted, countable, passed_over, frames_between, cut_from, segments,
}
use stratus_backend.Media.Segments.Chain.{not_passed_over}

abbrev pub total_frames : List Segment → ℤ
total_frames [] = pos 0
total_frames (s ∷ ss) = s.frames +ℤ total_frames ss

get_or_end {ℓ} : {A : Type ℓ} (xs : List A) (d : A) → get_or xs (length xs) d ≡ d
get_or_end [] d = refl
get_or_end (x ∷ xs) d = get_or_end xs d

-- Inside the list the default does not matter.
get_or_inside {ℓ} :
    {A : Type ℓ} (xs : List A) (i : ℕ) (d d' : A) → i < length xs → get_or xs i d ≡ get_or xs i d'
get_or_inside [] i d d' h = elim h [ ]
get_or_inside (x ∷ xs) zero d d' h = refl
get_or_inside (x ∷ xs) (suc i) d d' h = get_or_inside xs i d d' (omega arith)

module _ (ratio : ℤ → ℤ → ℤ) (ix : Index) (c : counted ix ≡ true) where
  sample : ℕ → ℤ
  sample i = get_or ix.key_samples i ix.samples

  same_length : length ix.key_samples ≡ length ix.keyframes
  unfolding counted
  same_length = ground arith

  frames_of :
      (i j : ℕ) → i < length ix.keyframes → frames_between ratio ix i j ≡ sample j -ℤ sample i
  unfolding frames_between sample
  frames_of i j h =
      rw (c, get_or_inside ix.key_samples i (pos 0) ix.samples (omega (arith, same_length)))

  sample_end : sample (length ix.keyframes) ≡ ix.samples
  unfolding sample
  sample_end = rw (← same_length) (get_or_end ix.key_samples ix.samples)

  cut_from-frames :
      (i : ℕ) (ks : List ℤ) (first : ℕ) (start : ℤ)
      → start <ℤ ix.duration
      → first < length ix.keyframes
      → i + length ks ≡ length ix.keyframes
      → total_frames (cut_from ratio ix i ks first start) ≡ ix.samples -ℤ sample first
  unfolding cut_from
  cut_from-frames i [] first start h f n =
      rw (lt→ltb _ _ h, frames_of first (length ix.keyframes) f, sample_end) (omega int_laws)
  cut_from-frames i (k ∷ ks) first start h f n = elim (Bool-cases (passed_over ix i k start)) [
    | inl e ↦ rw e (cut_from-frames (suc i) ks first start h f (omega arith))
    | inr e ↦
        let (a, b) = not_passed_over ix i k start e in
        let r = cut_from-frames (suc i) ks i k b (omega arith) (omega arith) in
        rw (e, frames_of first i f, r) (omega int_laws)
  ]

some_keyframe : (ix : Index) → countable ix ≡ true → 0 < length ix.keyframes
unfolding countable
some_keyframe ix h = ground arith

-- Where the container numbers its frames, the segments hold every frame from the first keyframe on
-- once: their counts add up to the frames of the film less those before the first keyframe, which are
-- in no segment though the first one starts at zero. The frames between keyframes can be counted, and
-- the film has a length.
pub total_frames-segments :
    (ratio : ℤ → ℤ → ℤ) (ix : Index)
    → countable ix ≡ true
    → counted ix ≡ true
    → pos 0 <ℤ ix.duration
    → total_frames (segments ratio ix) ≡ ix.samples -ℤ get_or ix.key_samples 0 ix.samples
unfolding segments sample
total_frames-segments ratio ix h c d =
    rw h (cut_from-frames ratio ix c 0 ix.keyframes 0 (pos 0) d (some_keyframe ix h) (omega arith))
