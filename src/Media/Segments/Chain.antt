-- ===== src/Media/Segments/Chain.antt =====
-- The segments follow one another from the start of the film to its end.
use stratus_backend.Prelude.{
  ℕ, suc, ◌≡◌, refl, true, false, ◌||◌, List, [], ◌∷◌, ◌==◌, inl, inr, Bool-cases, or_false, subst,
  not-ltb→le, lt→ltb, not-leb→lt,
}
use stratus_backend.Prelude.Int.{ℤ, pos, ◌+ℤ◌, ◌-ℤ◌, ◌≤ℤ◌, ◌<ℤ◌, ltb_ℤ, leb_ℤ, int_laws}
use stratus_backend.Media.Segments.{
  Index, Segment, segment_target, countable, passed_over, piece, cut_from, segments,
}

-- Each segment starts where the one before ended, none is empty, all but the last are as long as a
-- segment is meant to be, and the last ends with the film.
abbrev pub Chain : ℤ → ℤ → List Segment → Type 0
Chain start end [] = ⊥
Chain start end (s ∷ []) =
    (s.start ≡ start) × (pos 0 <ℤ s.length_of) × (s.start +ℤ s.length_of ≡ end)
Chain start end (s ∷ t ∷ ss) =
    (s.start ≡ start)
    × (segment_target ≤ℤ s.length_of)
    × Chain (s.start +ℤ s.length_of) end (t ∷ ss)

pub Chain-cons :
    (start end : ℤ) (s : Segment) (ss : List Segment)
    → s.start ≡ start
    → segment_target ≤ℤ s.length_of
    → Chain (s.start +ℤ s.length_of) end ss
    → Chain start end (s ∷ ss)
Chain-cons start end s [] e l h = absurd h
Chain-cons start end s (t ∷ ss) e l h = (e, l, h)

pub not_passed_over :
    (ix : Index) (i : ℕ) (k start : ℤ)
    → passed_over ix i k start ≡ false
    → (segment_target ≤ℤ k -ℤ start) × (k <ℤ ix.duration)
not_passed_over ix i k start e =
    let (p, b) = or_false (i == 0 || ltb_ℤ (k -ℤ start) segment_target) (leb_ℤ ix.duration k) e in
    let (c, a) = or_false (i == 0) (ltb_ℤ (k -ℤ start) segment_target) p in
    (not-ltb→le _ _ a, not-leb→lt _ _ b)

module _ (ratio : ℤ → ℤ → ℤ) (ix : Index) where
  cut_from-Chain :
      (i : ℕ) (ks : List ℤ) (first : ℕ) (start : ℤ)
      → start <ℤ ix.duration
      → Chain start ix.duration (cut_from ratio ix i ks first start)
  unfolding cut_from
  cut_from-Chain i [] first start h = rw (lt→ltb _ _ h) (refl, omega int_laws, omega int_laws)
  cut_from-Chain i (k ∷ ks) first start h = elim (Bool-cases (passed_over ix i k start)) [
    | inl e ↦ rw e (cut_from-Chain (suc i) ks first start h)
    | inr e ↦
        let (a, b) = not_passed_over ix i k start e in
        let q : k ≡ start +ℤ (k -ℤ start) = omega int_laws in
        rw e (
          Chain-cons start ix.duration (piece ratio ix first i start k)
            (cut_from ratio ix (suc i) ks i k) refl a
            (subst (λ t. Chain t ix.duration (cut_from ratio ix (suc i) ks i k)) q
              (cut_from-Chain (suc i) ks i k b)))
  ]

-- The segments of a film that can be cut start with the film, follow one another without a gap or an
-- overlap, and end with it; none is empty, and all but the last last six seconds at least.
pub segments-Chain :
    (ratio : ℤ → ℤ → ℤ) (ix : Index)
    → countable ix ≡ true
    → pos 0 <ℤ ix.duration
    → Chain (pos 0) ix.duration (segments ratio ix)
unfolding segments
segments-Chain ratio ix c h = rw c (cut_from-Chain ratio ix 0 ix.keyframes 0 (pos 0) h)
