-- ===== src/Calendar/Window/Answer.antt =====
-- The answer for a journal entry that does not repeat.
use stratus_backend.Prelude.{
  ◌≡◌, ◌↔◌, refl, sym, ap, Bool, true, false, some, none, ◌∙◌, arith, lt→ltb, if◌then◌else◌,
}
use stratus_backend.Prelude.Text.{Bytes}
use stratus_backend.Prelude.Int.{ℤ, pos, ◌+ℤ◌, ◌-ℤ◌, ◌<ℤ◌, int_laws}
use stratus_backend.Prelude.Result.{Result, ok}
use stratus_backend.Calendar.Window.{
  CalendarFault, Window, Component, Property, journal_name, in_range, journal, event_at,
}
use stratus_backend.Calendar.Window.Overlap.{IsBefore, IsIn, IsDuring, event_at-overlap}

-- How long an entry from `s` on counts: to the same time on the next day for a date, else no time.
abbrev pub span_of : Property → ℤ → ℤ
span_of p s = if p.is_date then p.next_day -ℤ s else pos 0

add_back : (n s : ℤ) → s +ℤ (n -ℤ s) ≡ n
add_back n s = omega int_laws

sub_positive : (n s : ℤ) → s <ℤ n → pos 0 <ℤ n -ℤ s
sub_positive n s h = omega (int_laws, h)

-- The journal's answer is the one for an event of that length.
journal-event_at :
    (w : Window) (c : Component) (p : Property) (s : ℤ) (dated : Bool)
    → c.dtstart ≡ some p
    → p.time ≡ some s
    → p.is_date ≡ dated
    → s <ℤ p.next_day
    → journal w c ≡ ok (event_at w s (if dated then p.next_day -ℤ s else pos 0))
unfolding journal event_at
journal-event_at w c p s true e f g h =
    rw (e, f, g, lt→ltb _ _ (sub_positive p.next_day s h), add_back p.next_day s, journal)
journal-event_at w c p s false e f g h = rw (e, f, g, journal)

ok-injective : (a b : Bool) → (◌≡◌ {A = Result CalendarFault Bool} (ok a) (ok b)) ↔ (a ≡ b)
ok-injective a b = (λ h. ground (arith, h), λ h. ap ok h)

-- A journal entry that does not repeat is in a window that ends after it starts where some moment of
-- the window is one of the entry's: from its start to the same time on the next day of the calendar
-- for a date, and the very start for any other. The entry is what the Location of the window's start
-- reads, and its next day comes later than its start.
pub in_range-journal :
    (loc : Bytes) (w : Window) (component : Bytes → Component) (p : Property) (s : ℤ)
    → (component loc).instances ≡ ok none
    → (component loc).name ≡ journal_name
    → (component loc).dtstart ≡ some p
    → p.time ≡ some s
    → s <ℤ p.next_day
    → IsBefore w.end w.start
    → (in_range loc w component ≡ ok true) ↔ ((t : ℤ) × IsIn w t × IsDuring s (span_of p s) t)
unfolding in_range
in_range-journal loc w component p s i n d e later span =
    let q : in_range loc w component ≡ ok (event_at w s (span_of p s)) =
      rw (i, n, in_range) (journal-event_at w (component loc) p s p.is_date d e refl later) in
    let (to, back) = event_at-overlap w s (span_of p s) span in
    (
      λ h. to ((ok-injective (event_at w s (span_of p s)) true).0 (sym q ∙ h)),
      λ h. q ∙ ap ok (back h),
    )
