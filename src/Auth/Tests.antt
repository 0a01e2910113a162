-- ===== src/Auth/Tests.antt =====
-- The throttle at its default setting.
use stratus_backend.Prelude.{◌≡◌, ◌≤◌, refl, some, arith, List, [], ◌∷◌}
use stratus_backend.Prelude.Int.{ℤ, pos, negsuc, ◌+ℤ◌, ◌-ℤ◌, ◌*ℤ◌, ◌≤ℤ◌, times}
use stratus_backend.Auth.Throttle.{default_throttle, second, reserve, backlog}
use stratus_backend.Auth.Throttle.Rate.{answers, answers_spaced}
use stratus_backend.Auth.Throttle.Burst.{at_once, setting, reserve-burst}
use stratus_backend.Auth.Throttle.Flood.{after_failures}

room : pos 0 ≤ℤ backlog default_throttle
unfolding ◌*ℤ◌ ◌-ℤ◌
room = omega arith

-- Six guesses at one moment, with the queue idle: three answered at once, two later, one refused.
abbrev six : List ℤ
six = pos 0 ∷ pos 0 ∷ pos 0 ∷ pos 0 ∷ pos 0 ∷ pos 0 ∷ []

six-answers :
    answers default_throttle (negsuc 8_000_000_000) six
    ≡ pos 0 ∷ pos 0 ∷ pos 0 ∷ second ∷ pos 2_000_000_000 ∷ []
unfolding answers reserve ◌+ℤ◌ ◌-ℤ◌ ◌*ℤ◌
six-answers = refl

answers_spaced_example : pos 0 +ℤ times 4 second ≤ℤ pos 2_000_000_000 +ℤ backlog default_throttle
answers_spaced_example =
    answers_spaced default_throttle (omega arith) room (negsuc 8_000_000_000) six 0 4 (pos 0)
      (pos 2_000_000_000) (rw six-answers) (rw six-answers)

reserve-burst_example :
    let cfg = setting 2 1_000_000_000 2_000_000_000 in
    ((reserve cfg (after_failures cfg (negsuc 8_000_000_000) (at_once 1 (pos 5))) (pos 5)).1
      ≡ some (pos 0))
    × (1_000_000_000 ≤ 2_000_000_000
        → (reserve cfg
            (reserve cfg (after_failures cfg (negsuc 8_000_000_000) (at_once 2 (pos 5))) (pos 5)).0
            (pos 5)).1
          ≡ some (pos 1_000_000_000))
unfolding ◌-ℤ◌
reserve-burst_example =
    reserve-burst 1 1 1_000_000_000 2_000_000_000 (negsuc 8_000_000_000) (pos 5) (omega arith)
