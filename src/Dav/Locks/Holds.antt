-- ===== src/Dav/Locks/Holds.antt =====
-- What a request with no If header has locked when it goes ahead.
use stratus_backend.Prelude.{
  ℕ, ◌≡◌, ◌≢◌, refl, sym, ap, ◌∙◌, subst, true, List, [], ◌∷◌, ◌++◌, arith,
}
use stratus_backend.Prelude.Int.{ℤ, pos}
use stratus_backend.Prelude.Text.{Bytes, beq}
use stratus_backend.Prelude.Result.{Result, ok, err}
use stratus_backend.Dav.Locks.System.{LockFault, LockSystem, Named, HasTokens}
use stratus_backend.Dav.Locks.Paths.{Urls, Request}
use stratus_backend.Dav.Locks.Confirm.{
  Headers, Release, held, brief_details, hold, let_go, run_release, both_held, source_held,
  lock_for_the_request, with_status, confirm_locks,
}

ok-injective : {A B : Type 0} {a b : A} → (◌≡◌ {A = Result B A} (ok a) (ok b)) → a ≡ b
ok-injective {a = a} h = ap (λ r. elim r [ err e ↦ a | ok x ↦ x ]) h

module _ {L H : Type 0} (locks : LockSystem L H) where
  with_status-ok :
      (q : L × Result LockFault (Release H)) (s' : L) (k : Release H)
      → with_status locks q ≡ (s', ok k)
      → q ≡ (s', ok k)
  unfolding with_status
  with_status-ok (s, ok r) s' k h = ground arith
  with_status-ok (s, err f) s' k h = cc

  -- The lock on a path, for no longer than the request: none for a path that is not there, else one
  -- that the lock system made on that path alone, with its token.
  pub data Locks (now : ℤ) : L → Bytes → L → List Bytes → Type 0 where
    no_path : (s : L) → Locks now s [] s []
    one_path :
        (s s' : L) (path t : Bytes)
        → path ≢ []
        → locks.create s now (record {
          root = path;
          duration = pos 60_000_000_000;
          owner_xml = [];
          zero_depth = true;
          for_the_request = true;
        })
          ≡ (s', ok t)
        → Locks now s path s' (t ∷ [])

  abbrev pub unlock_all : L → ℤ → List Bytes → L
  unlock_all s now [] = s
  unlock_all s now (t ∷ ts) = unlock_all (locks.unlock s now t) now ts

  unlock_all-append :
      (s : L) (now : ℤ) (ts us : List Bytes)
      → unlock_all s now (ts ++ us) ≡ unlock_all (unlock_all s now ts) now us
  unlock_all-append s now [] us = refl
  unlock_all-append s now (t ∷ ts) us = unlock_all-append (locks.unlock s now t) now ts us

  -- A hold that worked, and what letting it go does.
  abbrev HeldOne : ℤ → L → Bytes → L → Bytes → Type 0
  HeldOne now s path s' t =
      (ts : List Bytes) × Locks now s path s' ts
      × ((x : L) → let_go locks x now t ≡ unlock_all x now ts)

  -- The locks of both paths, the source first, and a release that unlocks the destination first.
  abbrev pub BothHeld : ℤ → L → Bytes → Bytes → L → Release H → Type 0
  BothHeld now s src dst s' k =
      (s₁ : L) × (firsts : List Bytes) × (seconds : List Bytes) × Locks now s src s₁ firsts
      × Locks now s₁ dst s' seconds
      × ((x : L) → run_release locks x k ≡ unlock_all x now (seconds ++ firsts))

  module _ (tokens : HasTokens locks) where
    created-HeldOne :
        (now : ℤ) (s : L) (c : ℕ) (path : Bytes) (r : L × Result LockFault Bytes) (s' : L)
        (t : Bytes)
        → locks.create s now (brief_details (c ∷ path)) ≡ r
        → Named r
        → r ≡ (s', ok t)
        → HeldOne now s (c ∷ path) s' t
    unfolding let_go
    created-HeldOne now s c path (u, err f) s' t e n h = cc
    created-HeldOne now s c path (u, ok []) s' t e n h = absurd (n refl)
    created-HeldOne now s c path (u, ok (b ∷ u_rest)) s' [] e n h = cc
    created-HeldOne now s c path (u, ok (b ∷ u_rest)) s' (d ∷ t) e n h =
        ((d ∷ t) ∷ [], one_path s s' (c ∷ path) (d ∷ t) (λ z. cc) (e ∙ h), λ x. refl)

    hold-HeldOne :
        (now : ℤ) (s : L) (path : Bytes) (s' : L) (t : Bytes)
        → hold locks s now path ≡ (s', ok t)
        → HeldOne now s path s' t
    unfolding hold let_go
    hold-HeldOne now s [] s' t h =
        let e : s ≡ s' = ap (λ q. q.0) h in
        let f : [] ≡ t = ok-injective (ap (λ q. q.1) h) in
        subst (λ x. HeldOne now s [] x t) e
          (subst (HeldOne now s [] s) f ([], no_path s, λ x. refl))
    hold-HeldOne now s (c ∷ path) s' t h =
        created-HeldOne now s c path (locks.create s now (brief_details (c ∷ path))) s' t refl
          (tokens s now (brief_details (c ∷ path))) h

    both_held-BothHeld :
        (now : ℤ) (s s₁ : L) (src dst t : Bytes) (q : L × Result LockFault Bytes) (s' : L)
        (k : Release H)
        → HeldOne now s src s₁ t
        → hold locks s₁ now dst ≡ q
        → both_held locks now t q ≡ (s', ok k)
        → BothHeld now s src dst s' k
    unfolding both_held run_release
    both_held-BothHeld now s s₁ src dst t (u, err f) s' k one e h = cc
    both_held-BothHeld now s s₁ src dst t (u, ok b) s' k (firsts, l, go) e h =
        let (seconds, m, on) = hold-HeldOne now s₁ dst u b e in
        let v : u ≡ s' = ap (λ q. q.0) h in
        let w : held now t b ≡ k = ok-injective (ap (λ q. q.1) h) in
        subst (λ y. BothHeld now s src dst y k) v
          (subst (BothHeld now s src dst u) w (
            s₁,
            firsts,
            seconds,
            l,
            m,
            λ x.
                ap (λ y. let_go locks y now t) (on x)
                ∙ go (unlock_all x now seconds)
                ∙ sym (unlock_all-append x now seconds firsts),
          ))

    source_held-BothHeld :
        (now : ℤ) (s : L) (src dst : Bytes) (q : L × Result LockFault Bytes) (s' : L)
        (k : Release H)
        → hold locks s now src ≡ q
        → source_held locks now dst q ≡ (s', ok k)
        → BothHeld now s src dst s' k
    unfolding source_held
    source_held-BothHeld now s src dst (s₁, ok a) s' k e h =
        both_held-BothHeld now s s₁ src dst a (hold locks s₁ now dst) s' k
          (hold-HeldOne now s src s₁ a e) refl h
    source_held-BothHeld now s src dst (s₁, err f) s' k e h = cc

-- A request with no If header goes ahead only where the lock system made a lock on each path that it
-- writes to, the source first, each for a minute, for that path alone and for the request; and what it
-- is given to call at its end unlocks these tokens, the destination's first, and does nothing else. No
-- token of the lock system is empty.
pub confirm_locks-BothHeld :
    {L H : Type 0} (locks : LockSystem L H) (tokens : HasTokens locks) (headers : Headers)
    (urls : Urls) (r : Request) (src dst : Bytes) (s s' : L) (k : Release H)
    → beq r.if_header [] ≡ true
    → confirm_locks locks headers urls r src dst s ≡ (s', ok k)
    → BothHeld locks (locks.now s) s src dst s' k
unfolding confirm_locks lock_for_the_request
confirm_locks-BothHeld locks tokens headers urls r src dst s s' k g h =
    source_held-BothHeld locks tokens (locks.now s) s src dst (hold locks s (locks.now s) src) s' k
      refl
      (with_status-ok locks (lock_for_the_request locks s src dst) s' k
        (rw (g, confirm_locks) at h))
