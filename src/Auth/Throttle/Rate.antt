-- ===== src/Auth/Throttle/Rate.antt =====
-- How often a guess is answered, over any sequence of failures.
use stratus_backend.Prelude.{
  ℕ, zero, suc, ◌≡◌, Option, none, some, List, [], ◌∷◌, inl, inr, get_elem?, drop,
}
use stratus_backend.Prelude.Int.{ℤ, pos, ◌+ℤ◌, ◌≤ℤ◌, int_laws, times}
use stratus_backend.Auth.Throttle.{ThrottleConfig, backlog, reserve}
use stratus_backend.Auth.Throttle.Slots.{Granted, granted, denied, reserve-Granted}

-- The moments at which failures that arrive at `nows`, in the order of the mutex, are answered.
answer_at : ℤ → Option ℤ → List ℤ → List ℤ
answer_at now none rest = rest
answer_at now (some wait) rest = (now +ℤ wait) ∷ rest

unfoldable pub answers : ThrottleConfig → ℤ → List ℤ → List ℤ
unfolding answer_at
answers cfg next [] = []
answers cfg next (now ∷ nows) =
    let (next', slot) = reserve cfg next now in answer_at now slot (answers cfg next' nows)

module _ (cfg : ThrottleConfig) (step : pos 0 ≤ℤ cfg.every) where
  -- No answer comes before the queue's next moment, and each pushes the later ones on.
  from_next :
      (next : ℤ) (nows : List ℤ) (k : ℕ) (b : ℤ)
      → get_elem? (answers cfg next nows) k ≡ some b
      → next +ℤ times k cfg.every ≤ℤ b
  unfolding answers times
  from_next next [] k b h = cc
  from_next next (now ∷ nows) k b h =
      go (reserve cfg next now) (reserve-Granted cfg next now) k
        (λ j c. from_next (reserve cfg next now).0 nows j c) h
    where
      go :
          (r : ℤ × Option ℤ)
          → Granted cfg next now r
          → (k : ℕ)
          → ((j : ℕ) (c : ℤ)
              → get_elem? (answers cfg r.0 nows) j ≡ some c
              → r.0 +ℤ times j cfg.every ≤ℤ c)
          → get_elem? (answer_at now r.1 (answers cfg r.0 nows)) k ≡ some b
          → next +ℤ times k cfg.every ≤ℤ b
      go (_, none) (denied next' a d c) k ih h = let i = ih k b h in omega int_laws
      go (_, some wait) (granted slot next' _ a c d e f g i) zero ih h =
          let q : b ≡ now +ℤ wait = cc in rw q (omega int_laws)
      go (_, some wait) (granted slot next' _ a c d e f g i) (suc k) ih h =
          let j : slot +ℤ cfg.every +ℤ times k cfg.every ≤ℤ b = rw e at (ih k b h) in omega int_laws

  spaced :
      pos 0 ≤ℤ backlog cfg
      → (next : ℤ) (nows : List ℤ) (i k : ℕ) (a b : ℤ)
      → get_elem? (answers cfg next nows) i ≡ some a
      → get_elem? (drop i (answers cfg next nows)) k ≡ some b
      → a +ℤ times k cfg.every ≤ℤ b +ℤ backlog cfg
  unfolding answers times
  spaced room next [] i k a b h l = cc
  spaced room next (now ∷ nows) i k a b h l =
      go (reserve cfg next now) (reserve-Granted cfg next now) i k
        (λ j. spaced room (reserve cfg next now).0 nows j k a b) h l
    where
      go :
          (r : ℤ × Option ℤ)
          → Granted cfg next now r
          → (i k : ℕ)
          → ((j : ℕ)
              → get_elem? (answers cfg r.0 nows) j ≡ some a
              → get_elem? (drop j (answers cfg r.0 nows)) k ≡ some b
              → a +ℤ times k cfg.every ≤ℤ b +ℤ backlog cfg)
          → get_elem? (answer_at now r.1 (answers cfg r.0 nows)) i ≡ some a
          → get_elem? (drop i (answer_at now r.1 (answers cfg r.0 nows))) k ≡ some b
          → a +ℤ times k cfg.every ≤ℤ b +ℤ backlog cfg
      go (_, none) (denied next' x d c) i k ih h l = ih i h l
      go (_, some wait) (granted slot next' _ x c d e f g y) zero zero ih h l =
          let p : a ≡ now +ℤ wait = cc in let q : b ≡ now +ℤ wait = cc in rw (p, q) (omega int_laws)
      go (_, some wait) (granted slot next' _ x c d e f g y) zero (suc k) ih h l =
          let p : a ≡ now +ℤ wait = cc in
          let j : slot +ℤ cfg.every +ℤ times k cfg.every ≤ℤ b =
            rw e at (from_next next' nows k b l) in
          rw p (elim g [ inl u ↦ rw u (omega int_laws) | inr u ↦ rw u (omega int_laws) ])
      go (_, some wait) (granted slot next' _ x c d e f g y) (suc i) k ih h l = ih i h l

-- From the i-th answer to a failure to the k-th after it, at least k spacings pass, less the backlog
-- that an idle queue allows, whatever failures arrive and when, where the spacing and the backlog are
-- not negative.
pub answers_spaced :
    (cfg : ThrottleConfig)
    → pos 0 ≤ℤ cfg.every
    → pos 0 ≤ℤ backlog cfg
    → (next : ℤ) (nows : List ℤ) → (i k : ℕ) (a b : ℤ)
    → get_elem? (answers cfg next nows) i ≡ some a
    → get_elem? (drop i (answers cfg next nows)) k ≡ some b
    → a +ℤ times k cfg.every ≤ℤ b +ℤ backlog cfg
answers_spaced = spaced
