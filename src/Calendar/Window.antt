-- ===== src/Calendar/Window.antt =====
-- Is a component in a window of time? internal/calendar/timerange.go. A moment is an integer of
-- nanoseconds from some epoch, and Go's zero moment is `none`. What go-ical reads out of a property is
-- part of the component, and so are the instances of a repeating one, which rrule-go computes: both
-- depend on the Location that they are read in, the one of the window's start.
pub mod Overlap
pub mod Answer
use stratus_backend.Prelude.{
  ℕ, ◌≡◌, refl, Bool, true, false, not, ◌||◌, ◌&&◌, Option, none, some, if◌then◌else◌,
}
use stratus_backend.Prelude.Int.{ℤ, pos, negsuc, ◌+ℤ◌, ◌-ℤ◌, ltb_ℤ, leb_ℤ, min_ℤ, max_ℤ}
use stratus_backend.Prelude.Text.{Bytes}
use stratus_backend.Prelude.Result.{Result, ok, err}

pub data CalendarFault : Type 0 where
  bad_start bad_end bad_due bad_completed bad_created bad_duration bad_recurrence : CalendarFault

pub data ComponentName : Type 0 where
  event_name todo_name journal_name other_name : ComponentName

-- A property with a moment: the moment, `none` where it cannot be read, the same time on the next day
-- of the calendar where it was read, which is not always 24 hours later, and whether it is a date.
pub record Property : Type 0 where
  pub time : Option ℤ
  pub next_day : ℤ
  pub is_date : Bool

-- A component as it is read in one Location.
pub record Component : Type 0 where
  pub name : ComponentName
  pub dtstart : Option Property
  pub dtend : Option Property
  pub due : Option Property
  pub completed : Option Property
  pub created : Option Property
  -- DURATION, where there is one, and its value where that can be read
  pub length_given : Option (Option ℤ)
  -- the first instance after a moment, or at it too, of a component that repeats
  pub instances : Result CalendarFault (Option (ℤ → Bool → Option ℤ))

pub record Window : Type 0 where
  pub start : ℤ
  pub end : Option ℤ

abbrev pub day : ℤ
day = pos 86_400_000_000_000

-- The zero moment, the first of January of the year 1, from the Unix epoch.
abbrev pub zero_moment : ℤ
zero_moment = negsuc 62_135_596_799_999_999_999

-- time.Time.Sub, which stops at the ends of an int64.
unfoldable pub sub_time : ℤ → ℤ → ℤ
sub_time t u =
    max_ℤ (negsuc 9_223_372_036_854_775_807) (min_ℤ (pos 9_223_372_036_854_775_807) (t -ℤ u))

unfoldable pub is_zero : ℤ → Bool
is_zero t = leb_ℤ t zero_moment && leb_ℤ zero_moment t

-- Props.DateTime: the zero moment for a property that is not there.
unfoldable pub read : CalendarFault → Option Property → Result CalendarFault (Option ℤ)
read f none = ok none
read f (some p) = elim p.time [ none ↦ err f | some t ↦ ok (if is_zero t then none else some t) ]

unfoldable pub moment_of : Option ℤ → ℤ
moment_of none = zero_moment
moment_of (some t) = t

unfoldable pub is_dated : Component → Bool
is_dated c = elim c.dtstart [
  | none ↦ false
  | some p ↦ p.is_date && (elim c.name [
    | todo_name ↦ false
    | event_name ↦ true
    | journal_name ↦ true
    | other_name ↦ true
  ])
]

-- duration, without a DURATION: what the first of DTEND and DUE says, else a day or nothing.
unfoldable pub duration_to_end : Component → Result CalendarFault ℤ
duration_to_end c = elim (read bad_start c.dtstart) [
  | err f ↦ err f
  | ok start ↦ elim (read bad_end c.dtend) [
    | err f ↦ err f
    | ok (some t) ↦ ok (sub_time t (moment_of start))
    | ok none ↦ elim (read bad_due c.due) [
      | err f ↦ err f
      | ok (some t) ↦ ok (sub_time t (moment_of start))
      | ok none ↦ ok (if is_dated c then day else pos 0)
    ]
  ]
]

unfoldable pub duration : Component → Result CalendarFault ℤ
unfolding duration_to_end
duration c = elim c.length_given [
  | none ↦ duration_to_end c
  | some none ↦ err bad_duration
  | some (some d) ↦ ok d
]

-- endsAfter, endsAtOrAfter and startsBy.
abbrev pub ends_after : Window → ℤ → Bool
ends_after w t = elim w.end [ none ↦ true | some e ↦ ltb_ℤ t e ]

abbrev pub ends_at_or_after : Window → ℤ → Bool
ends_at_or_after w t = elim w.end [ none ↦ true | some e ↦ leb_ℤ t e ]

abbrev pub starts_by : Window → ℤ → Bool
starts_by w t = leb_ℤ w.start t

-- holdsOne
unfoldable pub holds_one : Window → (ℤ → Bool → Option ℤ) → ℤ → Bool
holds_one w after length =
    elim (if ltb_ℤ (pos 0) length then after (w.start -ℤ length) false else after w.start true) [
      | none ↦ false
      | some first ↦ ends_after w first
    ]

-- The answer for an event from `dtstart` on that lasts `length`.
unfoldable pub event_at : Window → ℤ → ℤ → Bool
event_at w dtstart length =
    if ltb_ℤ (pos 0) length
    then ltb_ℤ w.start (dtstart +ℤ length) && ends_after w dtstart
    else starts_by w dtstart && ends_after w dtstart

-- event
unfoldable pub event : Window → Component → Result CalendarFault Bool
event w c = elim c.dtstart [
  | none ↦ ok false
  | some p ↦ elim p.time [
    | none ↦ err bad_start
    | some dtstart ↦ elim (duration c) [
      | err f ↦ err f
      | ok length ↦ ok (event_at w dtstart length)
    ]
  ]
]

-- The answer for a task whose dates and length have been read.
unfoldable pub todo_at : Window → Option ℤ → Option ℤ → Option ℤ → Option ℤ → ℤ → Bool
todo_at w (some s) due completed created length =
    let finish = s +ℤ length in
    if not (leb_ℤ length (pos 0) && leb_ℤ (pos 0) length)
    then starts_by w finish && (ends_after w s || ends_at_or_after w finish)
    else elim due [
      | some d ↦ (ltb_ℤ w.start d || starts_by w s) && (ends_after w s || ends_at_or_after w d)
      | none ↦ starts_by w s && ends_after w s
    ]
todo_at w none (some d) completed created length = ltb_ℤ w.start d && ends_at_or_after w d
todo_at w none none (some c) (some k) length =
    (starts_by w k || starts_by w c) && (ends_at_or_after w k || ends_at_or_after w c)
todo_at w none none (some c) none length = starts_by w c && ends_at_or_after w c
todo_at w none none none (some k) length = ends_after w k
todo_at w none none none none length = true

-- DURATION of a task, nothing where there is none.
unfoldable pub todo_length : Component → Result CalendarFault ℤ
todo_length c = elim c.length_given [
  | none ↦ ok (pos 0)
  | some none ↦ err bad_duration
  | some (some d) ↦ ok d
]

-- todo
unfoldable pub todo : Window → Component → Result CalendarFault Bool
unfolding todo_at todo_length
todo w c = elim (read bad_start c.dtstart) [
  | err f ↦ err f
  | ok dtstart ↦ elim (read bad_due c.due) [
    | err f ↦ err f
    | ok due ↦ elim (read bad_completed c.completed) [
      | err f ↦ err f
      | ok completed ↦ elim (read bad_created c.created) [
        | err f ↦ err f
        | ok created ↦ elim (todo_length c) [
          | err f ↦ err f
          | ok length ↦ ok (todo_at w dtstart due completed created length)
        ]
      ]
    ]
  ]
]

-- journal
unfoldable pub journal : Window → Component → Result CalendarFault Bool
journal w c = elim c.dtstart [
  | none ↦ ok false
  | some p ↦ elim p.time [
    | none ↦ err bad_start
    | some dtstart ↦ ok (
        if p.is_date
        then ltb_ℤ w.start p.next_day && ends_after w dtstart
        else starts_by w dtstart && ends_after w dtstart)
  ]
]

-- inRange, of a component as each Location reads it, where `loc` is the one of the window's start.
unfoldable pub in_range : Bytes → Window → (Bytes → Component) → Result CalendarFault Bool
in_range loc w component =
    let c = component loc in
    elim c.instances [
      | err f ↦ err f
      | ok (some after) ↦ elim (duration c) [
        | err f ↦ err f
        | ok length ↦ ok (holds_one w after length)
      ]
      | ok none ↦ elim c.name [
        | event_name ↦ event w c
        | todo_name ↦ todo w c
        | journal_name ↦ journal w c
        | other_name ↦ ok false
      ]
    ]
