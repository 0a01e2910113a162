-- ===== src/Calendar/Window/Overlap.antt =====
-- When an event and a window have a moment in common, and when an instance of a repeating one does.
use stratus_backend.Prelude.{
  ◌≡◌, refl, ◌↔◌, ◌⊎◌, inl, inr, Bool, true, false, Option, none, some, arith, Bool-cases, ltb→lt,
  lt→ltb, not-ltb→le, le→leb, leb→le, and_true, if◌then◌else◌, not-leb→lt,
}
use stratus_backend.Prelude.Int.{ℤ, pos, ◌+ℤ◌, ◌-ℤ◌, ◌≤ℤ◌, ◌<ℤ◌, ltb_ℤ, leb_ℤ, int_laws, le_of_eq_ℤ}
use stratus_backend.Calendar.Window.{Window, event_at, holds_one, ends_after, starts_by}

-- Before the end of a window, which may be open.
abbrev pub IsBefore : Option ℤ → ℤ → Type 0
IsBefore none t = Unit
IsBefore (some e) t = t <ℤ e

abbrev pub IsIn : Window → ℤ → Type 0
IsIn w t = (w.start ≤ℤ t) × IsBefore w.end t

-- The moments of an event: its start, and what follows for its length.
abbrev pub IsDuring : ℤ → ℤ → ℤ → Type 0
IsDuring dtstart length t = (dtstart ≤ℤ t) × ((t ≡ dtstart) ⊎ (t <ℤ dtstart +ℤ length))

ends_after-IsBefore :
    (s : ℤ) (end : Option ℤ) (t : ℤ)
    → ends_after (record { start = s; end = end }) t ≡ true
    → IsBefore end t
ends_after-IsBefore s none t h = tt
ends_after-IsBefore s (some e) t h = ltb→lt _ _ h

IsBefore-ends_after :
    (s : ℤ) (end : Option ℤ) (t : ℤ)
    → IsBefore end t
    → ends_after (record { start = s; end = end }) t ≡ true
IsBefore-ends_after s none t h = refl
IsBefore-ends_after s (some e) t h = lt→ltb _ _ h

IsBefore-down : (end : Option ℤ) (t u : ℤ) → t ≤ℤ u → IsBefore end u → IsBefore end t
IsBefore-down none t u l h = tt
IsBefore-down (some e) t u l h = omega arith

event_at-yes :
    (w : Window) (dtstart length : ℤ)
    → (if ltb_ℤ (pos 0) length then w.start <ℤ dtstart +ℤ length else w.start ≤ℤ dtstart)
    → IsBefore w.end dtstart
    → event_at w dtstart length ≡ true
unfolding event_at
event_at-yes w dtstart length h b = elim (Bool-cases (ltb_ℤ (pos 0) length)) [
  | inl e ↦ rw (e, lt→ltb _ _ (rw e at h), IsBefore-ends_after w.start w.end dtstart b)
  | inr e ↦ rw (e, le→leb _ _ (rw e at h), IsBefore-ends_after w.start w.end dtstart b)
]

event_at-inv :
    (w : Window) (dtstart length : ℤ)
    → event_at w dtstart length ≡ true
    → (if ltb_ℤ (pos 0) length then w.start <ℤ dtstart +ℤ length else w.start ≤ℤ dtstart)
      × IsBefore w.end dtstart
unfolding event_at
event_at-inv w dtstart length h = elim (Bool-cases (ltb_ℤ (pos 0) length)) [
  | inl e ↦
      let (a, b) =
        and_true (ltb_ℤ w.start (dtstart +ℤ length)) (ends_after w dtstart) (rw e at h) in
      rw e (ltb→lt _ _ a, ends_after-IsBefore w.start w.end dtstart b)
  | inr e ↦
      let (a, b) = and_true (starts_by w dtstart) (ends_after w dtstart) (rw e at h) in
      rw e (leb→le _ _ a, ends_after-IsBefore w.start w.end dtstart b)
]

event_at-common :
    (w : Window) (dtstart length : ℤ)
    → IsBefore w.end w.start
    → event_at w dtstart length ≡ true
    → (t : ℤ) × IsIn w t × IsDuring dtstart length t
event_at-common w dtstart length span h =
    let (a, b) = event_at-inv w dtstart length h in
    elim (Bool-cases (leb_ℤ w.start dtstart)) [
      | inl f ↦ (dtstart, (leb→le _ _ f, b), (omega arith, inl refl))
      | inr f ↦ elim (Bool-cases (ltb_ℤ (pos 0) length)) [
        | inl e ↦ (w.start, (omega arith, span), (omega (arith, not-leb→lt _ _ f), inr (rw e at a)))
        | inr e ↦
            let k : w.start ≤ℤ dtstart = rw e at a in absurd (omega (arith, k, not-leb→lt _ _ f))
      ]
    ]

common-event_at :
    (w : Window) (dtstart length t : ℤ)
    → IsIn w t
    → IsDuring dtstart length t
    → event_at w dtstart length ≡ true
common-event_at w dtstart length t (a, b) (c, d) = elim (Bool-cases (ltb_ℤ (pos 0) length)) [
  | inl e ↦
      let l : pos 0 <ℤ length = ltb→lt _ _ e in
      let k : w.start <ℤ dtstart +ℤ length = elim d [
        | inl q ↦ omega (int_laws, l, le_of_eq_ℤ t dtstart q)
        | inr q ↦ omega (int_laws, l, q)
      ] in
      event_at-yes w dtstart length (rw e k) (IsBefore-down w.end dtstart t c b)
  | inr e ↦
      let l : length ≤ℤ pos 0 = not-ltb→le _ _ e in
      let k : w.start ≤ℤ dtstart = elim d [
        | inl q ↦ omega (int_laws, l, le_of_eq_ℤ t dtstart q)
        | inr q ↦ omega (int_laws, l, q)
      ] in
      event_at-yes w dtstart length (rw e k) (IsBefore-down w.end dtstart t c b)
]

-- In a window that is not empty, the answer for an event is yes exactly when some moment is in the
-- window and in the event, where an event of no length has its start as its only moment.
pub event_at-overlap :
    (w : Window) (dtstart length : ℤ)
    → IsBefore w.end w.start
    → (event_at w dtstart length ≡ true) ↔ ((t : ℤ) × IsIn w t × IsDuring dtstart length t)
event_at-overlap w dtstart length span =
    (event_at-common w dtstart length span, λ (t, a, b). common-event_at w dtstart length t a b)

-- After a moment, or at it where that is allowed.
abbrev pub IsLater : Bool → ℤ → ℤ → Type 0
IsLater true t i = t ≤ℤ i
IsLater false t i = t <ℤ i

-- What rrule-go promises of `Set.After`: the first of the instances that is later, if there is one.
abbrev pub IsFirst : (ℤ → Type 0) → Bool → ℤ → Option ℤ → Type 0
IsFirst Instance at t none = (i : ℤ) → Instance i → IsLater at t i → ⊥
IsFirst Instance at t (some f) =
    Instance f × IsLater at t f × ((i : ℤ) → Instance i → IsLater at t i → f ≤ℤ i)

pub record IsAfter (Instance : ℤ → Type 0) (after : ℤ → Bool → Option ℤ) : Type 1 where
  pub first : (t : ℤ) (at : Bool) → IsFirst Instance at t (after t at)

module _ (Instance : ℤ → Type 0) (w : Window) (length : ℤ) where
  -- One call of After, whose answer is `q`, decides for all the instances.
  decided :
      (at : Bool) (t : ℤ) (q : Option ℤ)
      → IsFirst Instance at t q
      → ((i : ℤ)
          → IsLater at t i
            ↔ (if ltb_ℤ (pos 0) length then w.start <ℤ i +ℤ length else w.start ≤ℤ i))
      → ((elim q [ none ↦ false | some f ↦ ends_after w f ]) ≡ true)
        ↔ ((i : ℤ) × Instance i × (event_at w i length ≡ true))
  decided at t none h k =
      (λ e. cc, λ (i, a, b). absurd (h i a ((k i).1 (event_at-inv w i length b).0)))
  decided at t (some f) (a, l, least) k = (
    λ e. (f, a, event_at-yes w f length ((k f).0 l) (ends_after-IsBefore w.start w.end f e)),
    λ (i, b, e).
        let (c, d) = event_at-inv w i length e in
        IsBefore-ends_after w.start w.end f (IsBefore-down w.end f i (least i b ((k i).1 c)) d),
  )

-- A repeating component is in a window exactly when one of its instances is, though only one of them
-- is looked at: the first that could be. The set of instances answers After as it promises.
pub holds_one-some :
    (Instance : ℤ → Type 0) (after : ℤ → Bool → Option ℤ) (w : Window) (length : ℤ)
    → IsAfter Instance after
    → (holds_one w after length ≡ true) ↔ ((i : ℤ) × Instance i × (event_at w i length ≡ true))
unfolding holds_one
holds_one-some Instance after w length spec = elim (Bool-cases (ltb_ℤ (pos 0) length)) [
  | inl e ↦
      rw (e, holds_one)
        (decided Instance w length false (w.start -ℤ length) (after (w.start -ℤ length) false)
          (spec.first (w.start -ℤ length) false)
          (λ i. rw e (λ l. omega int_laws, λ l. omega int_laws)))
  | inr e ↦
      rw (e, holds_one)
        (decided Instance w length true w.start (after w.start true) (spec.first w.start true)
          (λ i. rw e (λ l. l, λ l. l)))
]
