-- ===== src/Auth/Throttle.antt =====
-- The limit on guesses: internal/auth/throttle.go. A moment is an integer of nanoseconds, and so is
-- a duration: the differences that the code forms are far from the ends of an int64. The mutex makes
-- each call of `reserve` one step.
pub mod Slots
pub mod Rate
pub mod Flood
pub mod Burst
use stratus_backend.Prelude.{
  ℕ, ◌*◌, ◌^◌, ◌≡◌, refl, Bool, true, false, Option, none, some, if◌then◌else◌, List, [], ◌∷◌,
}
use stratus_backend.Prelude.Int.{ℤ, pos, negsuc, ◌+ℤ◌, ◌-ℤ◌, ◌*ℤ◌, ltb_ℤ}

pub record ThrottleConfig : Type 0 where
  pub every : ℤ
  pub burst : ℤ
  pub max_wait : ℤ

abbrev pub second : ℤ
second = pos 1_000_000_000

abbrev pub default_throttle : ThrottleConfig
default_throttle = record { every = second; burst = pos 3; max_wait = pos 2_000_000_000 }

-- How far back an idle queue may start.
abbrev pub backlog : ThrottleConfig → ℤ
backlog cfg = (cfg.burst -ℤ pos 1) *ℤ cfg.every

-- `next`, moved up to the earliest moment that an idle period may earn back.
abbrev pub moved_up : ThrottleConfig → ℤ → ℤ → ℤ
moved_up cfg next now =
    let earliest = now -ℤ backlog cfg in if ltb_ℤ next earliest then earliest else next

-- reserve: the new `next`, and the wait, `none` for a refusal.
unfoldable pub reserve : ThrottleConfig → ℤ → ℤ → ℤ × Option ℤ
reserve cfg next now =
    let next' = moved_up cfg next now in
    let wait = next' -ℤ now in
    if ltb_ℤ cfg.max_wait wait
    then (next', none)
    else (next' +ℤ cfg.every, some (if ltb_ℤ wait (pos 0) then pos 0 else wait))

-- What a caller of Verify sees: no error, ErrTooManyAttempts, the context's error, or the verifier's
-- own error after a wait.
pub data Answer (E : Type 0) : Type 0 where
  accepted : Answer E
  too_many_attempts : Answer E
  cancelled : Answer E
  refused : ℤ → E → Answer E

-- delay: `err` is the verifier's error, and `done` tells that the context ends during the wait.
unfoldable pub delay : {E : Type 0} → ThrottleConfig → ℤ → ℤ → Option E → Bool → ℤ × Answer E
delay cfg next now none done = (next, accepted)
delay cfg next now (some e) done =
    let (next', slot) = reserve cfg next now in
    (
      next',
      elim slot [
        | none ↦ too_many_attempts
        | some wait ↦ if done then cancelled else refused wait e
      ],
    )
