-- ===== src/Calendar/Tests.antt =====
-- Windows at concrete moments.
use stratus_backend.Prelude.{
  ◌≡◌, ◌↔◌, refl, [], Bool, true, false, Option, none, some, arith, inl, inr, Bool-cases,
  if◌then◌else◌, leb→le, not-leb→lt, ltb→lt, not-ltb→le,
}
use stratus_backend.Prelude.Int.{ℤ, pos, ltb_ℤ, leb_ℤ}
use stratus_backend.Prelude.Result.{ok}
use stratus_backend.Calendar.Window.{
  Window, Component, Property, journal_name, todo_name, event_at, holds_one, in_range, todo,
  todo_at, todo_length, read, is_zero,
}
use stratus_backend.Calendar.Window.Overlap.{
  IsIn, IsDuring, IsAfter, IsFirst, event_at-overlap, holds_one-some,
}
use stratus_backend.Calendar.Window.Answer.{span_of, in_range-journal}
use stratus_backend.Prelude.Text.{Bytes}

abbrev morning : Window
morning = record { start = pos 10; end = some (pos 20) }

event_at-overlap_example :
    (event_at morning (pos 5) (pos 6) ≡ true)
    ↔ ((t : ℤ) × IsIn morning t × IsDuring (pos 5) (pos 6) t)
event_at-overlap_example = event_at-overlap morning (pos 5) (pos 6) (omega arith)

-- One instance, at 12.
abbrev Once : ℤ → Type 0
Once i = i ≡ pos 12

abbrev once : ℤ → Bool → Option ℤ
once t true = if leb_ℤ t (pos 12) then some (pos 12) else none
once t false = if ltb_ℤ t (pos 12) then some (pos 12) else none

once-IsFirst : (t : ℤ) (at : Bool) → IsFirst Once at t (once t at)
once-IsFirst t true = elim (Bool-cases (leb_ℤ t (pos 12))) [
  | inl e ↦ rw e (refl, leb→le _ _ e, λ i h l. rw h (omega arith))
  | inr e ↦
      rw e (λ i h l. absurd (let k = not-leb→lt _ _ e in let m = rw h at l in omega (arith, k, m)))
]
once-IsFirst t false = elim (Bool-cases (ltb_ℤ t (pos 12))) [
  | inl e ↦ rw e (refl, ltb→lt _ _ e, λ i h l. rw h (omega arith))
  | inr e ↦
      rw e (λ i h l. absurd (let k = not-ltb→le _ _ e in let m = rw h at l in omega (arith, k, m)))
]

once-IsAfter : IsAfter Once once
once-IsAfter = record { first = once-IsFirst }

holds_one-some_example :
    (holds_one morning once (pos 3) ≡ true)
    ↔ ((i : ℤ) × Once i × (event_at morning i (pos 3) ≡ true))
holds_one-some_example = holds_one-some Once once morning (pos 3) once-IsAfter

-- A task that was completed at 15.
abbrev task : Component
task = record {
  name = todo_name;
  dtstart = none;
  dtend = none;
  due = none;
  completed =
      some (record { time = some (pos 15); next_day = pos 86_400_000_000_015; is_date = false });
  created = none;
  length_given = none;
  instances = ok none;
}

task_in_morning : in_range [] morning (λ loc. task) ≡ ok true
unfolding in_range todo todo_at todo_length read is_zero
task_in_morning = refl

-- An entry for a day that ends at 12, as a Location with a short day reads it.
abbrev short_day : Property
short_day = record { time = some (pos 1); next_day = pos 12; is_date = true }

abbrev diary : Bytes → Component
diary loc = record task { name = journal_name; dtstart = some short_day }

in_range-journal_example :
    (in_range [] morning diary ≡ ok true)
    ↔ ((t : ℤ) × IsIn morning t × IsDuring (pos 1) (span_of short_day (pos 1)) t)
in_range-journal_example =
    in_range-journal [] morning diary short_day (pos 1) refl refl refl refl (omega arith)
      (omega arith)
