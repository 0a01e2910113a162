-- ===== src/Auth/Throttle/Slots.antt =====
-- What one reservation does.
use stratus_backend.Prelude.{
  ◌≡◌, refl, Option, none, some, arith, inl, inr, Bool-cases, ◌⊎◌, ltb→lt, not-ltb→le,
}
use stratus_backend.Prelude.Int.{ℤ, pos, ◌+ℤ◌, ◌-ℤ◌, ltb_ℤ, ◌≤ℤ◌, ◌<ℤ◌, int_laws}
use stratus_backend.Auth.Throttle.{ThrottleConfig, backlog, moved_up, reserve}

-- A granted reservation takes the slot `slot`: the holder is answered then, or now if it is past.
pub data Granted (cfg : ThrottleConfig) (next now : ℤ) : ℤ × Option ℤ → Type 0 where
  granted :
      (slot next' wait : ℤ)
      → next ≤ℤ slot
      → now -ℤ backlog cfg ≤ℤ slot
      → slot ≤ℤ now +ℤ cfg.max_wait
      → next' ≡ slot +ℤ cfg.every
      → slot ≤ℤ now +ℤ wait
      → (now +ℤ wait ≡ now) ⊎ (now +ℤ wait ≡ slot)
      → pos 0 ≤ℤ wait
      → Granted cfg next now (next', some wait)
  denied :
      (next' : ℤ)
      → next ≤ℤ next'
      → now +ℤ cfg.max_wait <ℤ next'
      → (next' ≡ next) ⊎ (next' ≡ now -ℤ backlog cfg)
      → Granted cfg next now (next', none)

pub moved_up_cases :
    (cfg : ThrottleConfig) (next now : ℤ)
    → (next ≤ℤ moved_up cfg next now)
      × (now -ℤ backlog cfg ≤ℤ moved_up cfg next now)
      × ((moved_up cfg next now ≡ next) ⊎ (moved_up cfg next now ≡ now -ℤ backlog cfg))
moved_up_cases cfg next now = elim (Bool-cases (ltb_ℤ next (now -ℤ backlog cfg))) [
  | inl e ↦ rw e (omega (arith, ltb→lt _ _ e), omega arith, inr refl)
  | inr e ↦ rw e (omega arith, omega (arith, not-ltb→le _ _ e), inl refl)
]

-- Every reservation is granted or denied, as the two constructors say.
pub reserve-Granted :
    (cfg : ThrottleConfig) (next now : ℤ) → Granted cfg next now (reserve cfg next now)
unfolding reserve
reserve-Granted cfg next now =
    let m = moved_up cfg next now in
    let (a, b, c) = moved_up_cases cfg next now in
    elim (Bool-cases (ltb_ℤ cfg.max_wait (m -ℤ now))) [
      | inl e ↦ rw e (denied m a (omega (int_laws, ltb→lt _ _ e)) c)
      | inr e ↦ elim (Bool-cases (ltb_ℤ (m -ℤ now) (pos 0))) [
        | inl f ↦
            rw (e, f)
              (granted m (m +ℤ cfg.every) (pos 0) a b (omega (int_laws, not-ltb→le _ _ e)) refl
                (omega (int_laws, ltb→lt _ _ f)) (inl (omega int_laws)) (omega arith))
        | inr f ↦
            rw (e, f)
              (granted m (m +ℤ cfg.every) (m -ℤ now) a b (omega (int_laws, not-ltb→le _ _ e)) refl
                (omega int_laws) (inr (omega int_laws)) (omega (int_laws, not-ltb→le _ _ f)))
      ]
    ]
