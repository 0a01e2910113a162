-- ===== src/Auth/Throttle/Burst.antt =====
-- What an idle throttle lets through at once.
use stratus_backend.Prelude.{
  ℕ, zero, suc, ◌+◌, ◌*◌, ◌≡◌, ◌≤◌, refl, subst, sym, ap, ◌∙◌, some, List, [], ◌∷◌, inl, inr,
  Bool-cases, arith, not-ltb→le, ltb→lt,
}
use stratus_backend.Prelude.Int.{
  ℤ, pos, ◌+ℤ◌, ◌-ℤ◌, ◌*ℤ◌, ◌≤ℤ◌, ltb_ℤ, int_laws, le_of_eq_ℤ, *ℤ-pos, eq_of_parts,
}
use stratus_backend.Auth.Throttle.{ThrottleConfig, backlog, moved_up, reserve}
use stratus_backend.Auth.Throttle.Slots.{moved_up_cases}
use stratus_backend.Auth.Throttle.Flood.{after_failures}

-- So many failures at one moment.
abbrev pub at_once : ℕ → ℤ → List ℤ
at_once zero now = []
at_once (suc k) now = now ∷ at_once k now

-- A burst of one and `b` more, a spacing of `e` and a longest wait of `w`.
abbrev pub setting : ℕ → ℕ → ℕ → ThrottleConfig
setting b e w = record { every = pos e; burst = pos (suc b); max_wait = pos w }

backlog-setting : (b e w : ℕ) → backlog (setting b e w) ≡ pos (b * e)
backlog-setting b e w =
    ap (λ x. x *ℤ pos e) (eq_of_parts (pos (suc b) -ℤ pos 1) (pos b) (omega int_laws)) ∙ *ℤ-pos b e

module _ (cfg : ThrottleConfig) where
  moved_up-same : (next now : ℤ) → now -ℤ backlog cfg ≤ℤ next → moved_up cfg next now ≡ next
  moved_up-same next now h = elim (Bool-cases (ltb_ℤ next (now -ℤ backlog cfg))) [
    | inl e ↦ absurd (omega (arith, ltb→lt _ _ e, h))
    | inr e ↦ rw e
  ]

  moved_up-idle :
      (next now : ℤ) → next ≤ℤ now -ℤ backlog cfg → moved_up cfg next now ≡ now -ℤ backlog cfg
  moved_up-idle next now h =
      let (a, b, c) = moved_up_cases cfg next now in
      elim c [
        | inl e ↦ eq_of_parts _ _ (omega (arith, h, b, le_of_eq_ℤ _ _ e, le_of_eq_ℤ _ _ (sym e)))
        | inr e ↦ e
      ]

  -- A reservation whose slot is past is answered at once, and moves the queue on by a spacing.
  reserve-past :
      (next now : ℤ)
      → pos 0 ≤ℤ cfg.max_wait
      → moved_up cfg next now ≤ℤ now
      → (reserve cfg next now).1 ≡ some (pos 0)
  unfolding reserve
  reserve-past next now p h =
      elim (Bool-cases (ltb_ℤ cfg.max_wait (moved_up cfg next now -ℤ now))) [
        | inl e ↦ absurd (omega (int_laws, ltb→lt _ _ e, h, p))
        | inr e ↦ elim (Bool-cases (ltb_ℤ (moved_up cfg next now -ℤ now) (pos 0))) [
          | inl f ↦ rw (e, f)
          | inr f ↦ rw (e, f) (ap some (omega (int_laws, not-ltb→le _ _ f, h)))
        ]
      ]

  reserve-ahead :
      (next now : ℤ)
      → now ≤ℤ moved_up cfg next now
      → moved_up cfg next now ≤ℤ now +ℤ cfg.max_wait
      → (reserve cfg next now).1 ≡ some (moved_up cfg next now -ℤ now)
  unfolding reserve
  reserve-ahead next now p h =
      elim (Bool-cases (ltb_ℤ cfg.max_wait (moved_up cfg next now -ℤ now))) [
        | inl e ↦ absurd (omega (int_laws, ltb→lt _ _ e, h))
        | inr e ↦ elim (Bool-cases (ltb_ℤ (moved_up cfg next now -ℤ now) (pos 0))) [
          | inl f ↦ absurd (omega (int_laws, ltb→lt _ _ f, p))
          | inr f ↦ rw (e, f)
        ]
      ]

  reserve-moves :
      (next now : ℤ)
      → pos 0 ≤ℤ cfg.every
      → moved_up cfg next now ≤ℤ now +ℤ cfg.max_wait
      → moved_up cfg (reserve cfg next now).0 now ≡ moved_up cfg next now +ℤ cfg.every
  unfolding reserve
  reserve-moves next now p h =
      elim (Bool-cases (ltb_ℤ cfg.max_wait (moved_up cfg next now -ℤ now))) [
        | inl e ↦ absurd (omega (int_laws, ltb→lt _ _ e, h))
        | inr e ↦ rw e (
            moved_up-same (moved_up cfg next now +ℤ cfg.every) now
              (omega (int_laws, p, (moved_up_cases cfg next now).1)))
      ]

none_before : (r : ℕ) → 0 + r ≡ r
none_before r = omega arith

-- After `k` failures at one moment, the queue is as far behind it as the failures left of the burst.
after_burst :
    (cfg : ThrottleConfig) (e : ℕ) (now : ℤ)
    → cfg.every ≡ pos e
    → pos 0 ≤ℤ cfg.max_wait
    → (k r : ℕ) (next : ℤ) → moved_up cfg next now ≡ now -ℤ pos ((k + r) * e)
    → moved_up cfg (after_failures cfg next (at_once k now)) now ≡ now -ℤ pos (r * e)
unfolding after_failures
after_burst cfg e now every patience zero r next h =
    subst (λ j. moved_up cfg next now ≡ now -ℤ pos (j * e)) (none_before r) h
after_burst cfg e now every patience (suc k) r next h =
    let m =
      reserve-moves cfg next now (omega (arith, le_of_eq_ℤ _ _ (sym every)))
        (omega (int_laws, patience, le_of_eq_ℤ _ _ h)) in
    after_burst cfg e now every patience k r (reserve cfg next now).0 (
      eq_of_parts _ _ (
        omega (
          int_laws,
          le_of_eq_ℤ _ _ m,
          le_of_eq_ℤ _ _ (sym m),
          le_of_eq_ℤ _ _ h,
          le_of_eq_ℤ _ _ (sym h),
          le_of_eq_ℤ _ _ every,
          le_of_eq_ℤ _ _ (sym every),
        )))

-- With a burst of k + r + 1 and a queue that has been idle for k + r spacings, a failure that comes at
-- the same moment as `k` before it is answered at once; and one that comes at the same moment as a
-- whole burst waits for exactly one spacing, where the longest wait is no less than that.
pub reserve-burst :
    (k r e w : ℕ) (next now : ℤ)
    → next ≤ℤ now -ℤ pos ((k + r) * e)
    → let cfg = setting (k + r) e w in
      ((reserve cfg (after_failures cfg next (at_once k now)) now).1 ≡ some (pos 0))
      × (e ≤ w
          → (reserve cfg (reserve cfg (after_failures cfg next (at_once (k + r) now)) now).0 now).1
            ≡ some (pos e))
reserve-burst k r e w next now idle =
    let cfg = setting (k + r) e w in
    let b : backlog cfg ≡ pos ((k + r) * e) = backlog-setting (k + r) e w in
    let start : moved_up cfg next now ≡ now -ℤ pos ((k + r) * e) =
      moved_up-idle cfg next now (subst (λ x. next ≤ℤ now -ℤ x) (sym b) idle)
      ∙ ap (λ x. now -ℤ x) b in
    let n = after_failures cfg next (at_once (k + r) now) in
    let none_left : k + r ≡ k + r + 0 = omega arith in
    let last : moved_up cfg n now ≡ now -ℤ pos (0 * e) =
      after_burst cfg e now refl (omega arith) (k + r) 0 next
        (subst (λ j. moved_up cfg next now ≡ now -ℤ pos (j * e)) none_left start) in
    let here : moved_up cfg n now ≤ℤ now = omega (int_laws, le_of_eq_ℤ _ _ last) in
    let moves : moved_up cfg (reserve cfg n now).0 now ≡ moved_up cfg n now +ℤ pos e =
      reserve-moves cfg n now (omega arith) (omega (int_laws, here)) in
    let ahead : moved_up cfg (reserve cfg n now).0 now -ℤ now ≡ pos e = eq_of_parts _ _ (
      omega (
        int_laws,
        le_of_eq_ℤ _ _ last,
        le_of_eq_ℤ _ _ (sym last),
        le_of_eq_ℤ _ _ moves,
        le_of_eq_ℤ _ _ (sym moves),
      )) in
    (
      reserve-past cfg (after_failures cfg next (at_once k now)) now (omega arith) (
          omega
            (int_laws, le_of_eq_ℤ _ _ (after_burst cfg e now refl (omega arith) k r next start))),
      λ room.
          reserve-ahead cfg (reserve cfg n now).0 now
            (omega (int_laws, le_of_eq_ℤ _ _ ahead, le_of_eq_ℤ _ _ (sym ahead)))
            (omega (int_laws, room, le_of_eq_ℤ _ _ ahead))
          ∙ ap some ahead,
    )
