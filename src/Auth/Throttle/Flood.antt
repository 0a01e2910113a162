-- ===== src/Auth/Throttle/Flood.antt =====
-- A flood of failures does not lock the next one out.
use stratus_backend.Prelude.{List, [], ◌∷◌}
use stratus_backend.Prelude.Int.{ℤ, pos, ◌+ℤ◌, ◌≤ℤ◌}
use stratus_backend.Auth.Throttle.{ThrottleConfig, backlog, reserve}

-- `next` after the failures that arrive at `nows`.
unfoldable pub after_failures : ThrottleConfig → ℤ → List ℤ → ℤ
after_failures cfg next [] = next
after_failures cfg next (now ∷ nows) = after_failures cfg (reserve cfg next now).0 nows

-- The settings that make sense: no duration is negative, and the burst is one at least.
pub record IsSane (cfg : ThrottleConfig) : Type 0 where
  pub spacing : pos 0 ≤ℤ cfg.every
  pub room : pos 0 ≤ℤ backlog cfg
  pub patience : pos 0 ≤ℤ cfg.max_wait

abbrev IsWithin : ThrottleConfig → ℤ → ℤ → Type 0
IsWithin cfg t next = next ≤ℤ t +ℤ cfg.max_wait +ℤ cfg.every
