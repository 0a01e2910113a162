-- ===== src/Dav/Locks/Released.antt =====
-- What is given back of the locks that a request takes on its own behalf, as it shows in a view of the
-- lock system's state that each call undoes for another.
use stratus_backend.Prelude.{
  ℕ, ◌≡◌, refl, ◌∙◌, not, ◌||◌, List, [], ◌∷◌, Option, none, some, inl, inr, Bool-cases,
  Option-cases,
}
use stratus_backend.Prelude.Int.{ℤ}
use stratus_backend.Prelude.Text.{Bytes, beq}
use stratus_backend.Prelude.Result.{Result, ok, err}
use stratus_backend.Dav.Locks.System.{
  LockFault, LockDetails, Condition, LockSystem, Named, HasTokens,
}
use stratus_backend.Dav.Locks.Paths.{Urls, Request, locked_paths}
use stratus_backend.Dav.Locks.Confirm.{
  IfList, Headers, Release, confirmed, claimed, held, brief_details, is_confirmation_failed,
  claimable, is_locked_method, hold, let_go, run_release, both_held, source_held,
  lock_for_the_request, other_held, one_claimed, claim_one_hold_the_other, destination_claimed,
  source_claimed, both_claimed, claim_touched, after_hold, after_claim, with_status, holds,
  about_of, confirm_lists, requested_of, confirm_locks, answered, released, guarded, enforce_locks,
}

module _ {L H V : Type 0} (locks : LockSystem L H) (view : L → V) where
  -- What a call took is given back by the call that undoes it, and a call that fails takes nothing.
  abbrev pub Created : L → L × Result LockFault Bytes → Type 0
  Created s (s', ok t) = (now : ℤ) → view (locks.unlock s' now t) ≡ view s
  Created s (s', err e) = view s' ≡ view s

  abbrev pub Confirmed : L → L × Result LockFault H → Type 0
  Confirmed s (s', ok h) = view (locks.release s' h) ≡ view s
  Confirmed s (s', err e) = view s' ≡ view s

-- A view in which locks can be given back, and in which giving one back does the same wherever the
-- view is the same.
pub record GivesBack {L H V : Type 0} (locks : LockSystem L H) (view : L → V) : Type 0 where
  pub created : (s : L) (now : ℤ) (d : LockDetails) → Created locks view s (locks.create s now d)
  pub confirmed :
      (s : L) (now : ℤ) (a b : Bytes) (cs : List Condition)
      → Confirmed locks view s (locks.confirm s now a b cs)
  pub unlock_cong :
      (s s' : L) (now : ℤ) (t : Bytes)
      → view s ≡ view s'
      → view (locks.unlock s now t) ≡ view (locks.unlock s' now t)
  pub release_cong :
      (s s' : L) (h : H) → view s ≡ view s' → view (locks.release s h) ≡ view (locks.release s' h)

module _ {L H V : Type 0} (locks : LockSystem L H) (view : L → V) (back : GivesBack locks view)
    (tokens : HasTokens locks) where
  let_go-cong :
      (s s' : L) (now : ℤ) (t : Bytes)
      → view s ≡ view s'
      → view (let_go locks s now t) ≡ view (let_go locks s' now t)
  unfolding let_go
  let_go-cong s s' now [] e = e
  let_go-cong s s' now (c ∷ t) e = back.unlock_cong s s' now (c ∷ t) e

  run_release-cong :
      (s s' : L) (r : Release H)
      → view s ≡ view s'
      → view (run_release locks s r) ≡ view (run_release locks s' r)
  unfolding run_release
  run_release-cong s s' (confirmed h) e = back.release_cong s s' h e
  run_release-cong s s' (claimed now t h) e =
      back.release_cong (locks.unlock s now t) (locks.unlock s' now t) h
        (back.unlock_cong s s' now t e)
  run_release-cong s s' (held now t u) e =
      let_go-cong (let_go locks s now u) (let_go locks s' now u) now t (let_go-cong s s' now u e)

  -- The release leads back to the view of `s`; so does a failure by itself.
  abbrev pub Restores : {E : Type 0} → L → L × Result E (Release H) → Type 0
  Restores s (s', ok r) = view (run_release locks s' r) ≡ view s
  Restores s (s', err e) = view s' ≡ view s

  abbrev RestoresSome : L → L × Option (Release H) → Type 0
  RestoresSome s (s', some r) = view (run_release locks s' r) ≡ view s
  RestoresSome s (s', none) = view s' ≡ view s

  abbrev Held : L → L × Result LockFault Bytes → Type 0
  Held s (s', ok t) = (now : ℤ) → view (let_go locks s' now t) ≡ view s
  Held s (s', err e) = view s' ≡ view s

  Named-Held :
      (s : L) (r : L × Result LockFault Bytes) → Created locks view s r → Named r → Held s r
  unfolding let_go
  Named-Held s (s', ok []) c n = absurd (n refl)
  Named-Held s (s', ok (b ∷ t)) c n = c
  Named-Held s (s', err e) c n = c

  hold-Held : (s : L) (now : ℤ) (path : Bytes) → Held s (hold locks s now path)
  unfolding hold let_go
  hold-Held s now [] = λ n. refl
  hold-Held s now (c ∷ path) =
      let d = brief_details (c ∷ path) in
      Named-Held s (locks.create s now d) (back.created s now d) (tokens s now d)

  both_held-Restores :
      (s s₁ : L) (now : ℤ) (t : Bytes) (r : L × Result LockFault Bytes)
      → view (let_go locks s₁ now t) ≡ view s
      → Held s₁ r
      → Restores s (both_held locks now t r)
  unfolding both_held run_release
  both_held-Restores s s₁ now t (s', ok u) e h =
      let_go-cong (let_go locks s' now u) s₁ now t (h now) ∙ e
  both_held-Restores s s₁ now t (s', err f) e h = let_go-cong s' s₁ now t h ∙ e

  source_held-Restores :
      (s : L) (now : ℤ) (dst : Bytes) (r : L × Result LockFault Bytes)
      → Held s r
      → Restores s (source_held locks now dst r)
  unfolding source_held
  source_held-Restores s now dst (s', ok t) h =
      both_held-Restores s s' now t (hold locks s' now dst) (h now) (hold-Held s' now dst)
  source_held-Restores s now dst (s', err f) h = h

  pub lock_for_the_request-Restores :
      (s : L) (src dst : Bytes) → Restores s (lock_for_the_request locks s src dst)
  unfolding lock_for_the_request
  lock_for_the_request-Restores s src dst =
      let now = locks.now s in
      source_held-Restores s now dst (hold locks s now src) (hold-Held s now src)

  other_held-RestoresSome :
      (s s₁ : L) (now : ℤ) (h : H) (r : L × Result LockFault Bytes)
      → view (locks.release s₁ h) ≡ view s
      → Created locks view s₁ r
      → RestoresSome s (other_held locks now h r)
  unfolding other_held run_release
  other_held-RestoresSome s s₁ now h (s', ok t) e c =
      back.release_cong (locks.unlock s' now t) s₁ h (c now) ∙ e
  other_held-RestoresSome s s₁ now h (s', err f) e c = back.release_cong s' s₁ h c ∙ e

  one_claimed-RestoresSome :
      (s : L) (now : ℤ) (free : Bytes) (r : L × Result LockFault H)
      → Confirmed locks view s r
      → RestoresSome s (one_claimed locks now free r)
  unfolding one_claimed
  one_claimed-RestoresSome s now free (s', ok h) c =
      let d = brief_details free in
      other_held-RestoresSome s s' now h (locks.create s' now d) c (back.created s' now d)
  one_claimed-RestoresSome s now free (s', err f) c = c

  claim_one-RestoresSome :
      (s : L) (now : ℤ) (name free : Bytes) (cs : List Condition)
      → RestoresSome s (claim_one_hold_the_other locks s now name free cs)
  unfolding claim_one_hold_the_other
  claim_one-RestoresSome s now name free cs =
      one_claimed-RestoresSome s now free (locks.confirm s now name [] cs)
        (back.confirmed s now name [] cs)

  destination_claimed-Restores :
      (s s₁ : L) (r : L × Option (Release H))
      → view s₁ ≡ view s
      → RestoresSome s₁ r
      → Restores s (destination_claimed locks r)
  unfolding destination_claimed
  destination_claimed-Restores s s₁ (s', some r) e h = h ∙ e
  destination_claimed-Restores s s₁ (s', none) e h = h ∙ e

  source_claimed-Restores :
      (s : L) (now : ℤ) (src dst : Bytes) (cs : List Condition) (r : L × Option (Release H))
      → RestoresSome s r
      → Restores s (source_claimed locks now src dst cs r)
  unfolding source_claimed
  source_claimed-Restores s now src dst cs (s', some r) h = h
  source_claimed-Restores s now src dst cs (s', none) h = elim (Bool-cases (beq src [])) [
    | inl e ↦ rw e h
    | inr e ↦ rw e (
        destination_claimed-Restores s s' (claim_one_hold_the_other locks s' now dst src cs) h
          (claim_one-RestoresSome s' now dst src cs))
  ]

  Restores-from :
      {E : Type 0} (s s' : L) (r : L × Result E (Release H))
      → view s' ≡ view s
      → Restores s' r
      → Restores s r
  Restores-from s s' (s'', ok r) e h = h ∙ e
  Restores-from s s' (s'', err f) e h = h ∙ e

  both_claimed-Restores :
      (s : L) (now : ℤ) (src dst : Bytes) (cs : List Condition) (r : L × Result LockFault H)
      → Confirmed locks view s r
      → Restores s (both_claimed locks now src dst cs r)
  unfolding both_claimed run_release
  both_claimed-Restores s now src dst cs (s', ok h) c = c
  both_claimed-Restores s now src dst cs (s', err f) c =
      elim (Bool-cases (not (is_confirmation_failed f) || beq dst [])) [
        | inl e ↦ rw e c
        | inr e ↦ rw e (
            Restores-from s s'
              (source_claimed locks now src dst cs
                (claim_one_hold_the_other locks s' now src dst cs))
              c
              (source_claimed-Restores s' now src dst cs
                (claim_one_hold_the_other locks s' now src dst cs)
                (claim_one-RestoresSome s' now src dst cs)))
      ]

  pub claim_touched-Restores :
      (s : L) (now : ℤ) (src dst : Bytes) (cs : List Condition)
      → Restores s (claim_touched locks s now src dst cs)
  unfolding claim_touched
  claim_touched-Restores s now src dst cs =
      both_claimed-Restores s now src dst cs (locks.confirm s now src dst cs)
        (back.confirmed s now src dst cs)

  abbrev pub Rest : Type 0
  Rest = L → L × Result ℕ (Release H)

  after_hold-Restores :
      (s : L) (rest : Rest) (r : L × Result LockFault (Release H))
      → ((x : L) → Restores x (rest x))
      → Restores s r
      → Restores s (after_hold locks rest r)
  unfolding after_hold
  after_hold-Restores s rest (s', ok r) k h = h
  after_hold-Restores s rest (s', err f) k h = Restores-from s s' (rest s') h (k s')

  after_claim-Restores :
      (s : L) (rest : Rest) (src dst : Bytes) (r : L × Result LockFault (Release H))
      → ((x : L) → Restores x (rest x))
      → Restores s r
      → Restores s (after_claim locks rest src dst r)
  unfolding after_claim
  after_claim-Restores s rest src dst (s', ok r) k h = h
  after_claim-Restores s rest src dst (s', err f) k h =
      elim (Bool-cases (is_confirmation_failed f)) [
        | inl e ↦ rw e (
            Restores-from s s' (after_hold locks rest (lock_for_the_request locks s' src dst)) h (
              after_hold-Restores s' rest (lock_for_the_request locks s' src dst) k
                (lock_for_the_request-Restores s' src dst)))
        | inr e ↦ rw e h
      ]

  with_status-Restores :
      (s : L) (r : L × Result LockFault (Release H))
      → Restores s r
      → Restores s (with_status locks r)
  unfolding with_status
  with_status-Restores s (s', ok r) h = h
  with_status-Restores s (s', err f) h = h

  module _ (headers : Headers) (urls : Urls) where
    confirm_lists-Restores :
        (now : ℤ) (r : Request) (requested src dst : Bytes) (ls : List IfList) (s : L)
        → Restores s (confirm_lists locks headers urls now r requested src dst ls s)
    unfolding confirm_lists
    confirm_lists-Restores now r requested src dst [] s = refl
    confirm_lists-Restores now r requested src dst (l ∷ ls) s =
        let ih = confirm_lists-Restores now r requested src dst ls in
        elim (Option-cases (about_of locks headers urls r requested src dst l)) [
          | inl e ↦ rw (e, confirm_lists) (ih s)
          | inr (about, e) ↦ elim (Bool-cases (holds locks headers urls s now l.conditions about)) [
            | inl f ↦
                rw (e, f, confirm_lists)
                  (after_claim-Restores s
                    (confirm_lists locks headers urls now r requested src dst ls) src dst
                    (claim_touched locks s now src dst (claimable l.conditions)) ih
                    (claim_touched-Restores s now src dst (claimable l.conditions)))
            | inr f ↦ rw (e, f, confirm_lists) (ih s)
          ]
        ]

    pub confirm_locks-Restores :
        (r : Request) (src dst : Bytes) (s : L)
        → Restores s (confirm_locks locks headers urls r src dst s)
    unfolding confirm_locks
    confirm_locks-Restores r src dst s = elim (Bool-cases (beq r.if_header [])) [
      | inl e ↦ rw e (
          with_status-Restores s (lock_for_the_request locks s src dst)
            (lock_for_the_request-Restores s src dst))
      | inr e ↦ elim (Option-cases (headers.parse_if r.if_header)) [
        | inl f ↦ rw (e, f, confirm_locks)
        | inr (lists, f) ↦
            rw (e, f, confirm_locks)
              (confirm_lists-Restores (locks.now s) r (requested_of locks headers urls r src) src
                dst lists s)
      ]
    ]

    module _ {A : Type 0} (next : L → L × A) (quiet : (s : L) → view (next s).0 ≡ view s) where
      released-view :
          (s s' : L) (r : Release H) (a : L × A)
          → view (run_release locks s' r) ≡ view s
          → view a.0 ≡ view s'
          → view (released locks headers urls next r a).0 ≡ view s
      unfolding released
      released-view s s' r (s'', a) h e = run_release-cong s'' s' r e ∙ h

      guarded-view :
          (s : L) (r : L × Result ℕ (Release H))
          → Restores s r
          → view (guarded locks headers urls next r).0 ≡ view s
      unfolding guarded
      guarded-view s (s', ok r) h = released-view s s' r (next s') h (quiet s')
      guarded-view s (s', err f) h = h

      answered-view : (r : L × A) → view (answered locks headers urls next r).0 ≡ view r.0
      unfolding answered
      answered-view (s, a) = refl

      pub enforced-view :
          (r : Request) (s : L) → view (enforce_locks locks headers urls next r s).0 ≡ view s
      unfolding enforce_locks
      enforced-view r s = elim (Bool-cases (not (is_locked_method r.method) || not r.has_owner)) [
        | inl e ↦ rw e (answered-view (next s) ∙ quiet s)
        | inr e ↦ elim (Option-cases (locked_paths urls r)) [
          | inl f ↦ rw (e, f, enforce_locks) (answered-view (next s) ∙ quiet s)
          | inr ((src, dst), f) ↦
              rw (e, f, enforce_locks)
                (guarded-view s (confirm_locks locks headers urls r src dst s)
                  (confirm_locks-Restores r src dst s))
        ]
      ]
