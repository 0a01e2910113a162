-- ===== src/Dav/Locks/Balance.antt =====
-- The locks that a request takes on its own behalf are given back: a log of the calls of
-- `internal/dav/locks.go` on the lock system is balanced when `enforceLocks` returns.
use stratus_backend.Prelude.{
  ℕ, ◌+◌, ◌-◌, ◌≡◌, refl, Bool, List, [], ◌∷◌, if◌then◌else◌, arith, ap, ◌∙◌,
}
use stratus_backend.Prelude.Text.{Bytes}
use stratus_backend.Prelude.Result.{Result, ok, err}
use stratus_backend.Dav.Locks.System.{LockFault, LockSystem, Named, HasTokens}
use stratus_backend.Dav.Locks.Paths.{Urls, Request}
use stratus_backend.Dav.Locks.Confirm.{Headers, enforce_locks}
use stratus_backend.Dav.Locks.Released.{GivesBack, Created, Confirmed, enforced-view}

-- What a call takes: the token of a lock that was made, or the handle of a confirmation.
pub data Taken (H : Type 0) : Type 0 where
  token : Bytes → Taken H
  handle : H → Taken H

pub data Event (H : Type 0) : Type 0 where
  taken returned : Taken H → Event H

-- How often the log takes, and how often it gives back, what passes a test.
unfoldable pub count_taken : {H : Type 0} → (Taken H → Bool) → List (Event H) → ℕ
count_taken p [] = 0
count_taken p (taken x ∷ es) = (if p x then 1 else 0) + count_taken p es
count_taken p (returned x ∷ es) = count_taken p es

unfoldable pub count_returned : {H : Type 0} → (Taken H → Bool) → List (Event H) → ℕ
count_returned p [] = 0
count_returned p (taken x ∷ es) = count_returned p es
count_returned p (returned x ∷ es) = (if p x then 1 else 0) + count_returned p es

abbrev pub Logged : Type 0 → Type 0 → Type 0
Logged L H = L × List (Event H)

-- A call that worked is written down with what it took, the last call first.
unfoldable pub logged_result :
    {L H A : Type 0}
    → (A → Taken H)
    → List (Event H)
    → L × Result LockFault A
    → Logged L H × Result LockFault A
logged_result what es (s, ok a) = ((s, taken (what a) ∷ es), ok a)
logged_result what es (s, err e) = ((s, es), err e)

-- A lock system that answers as another one does and writes down what is taken and given back.
abbrev pub logged : {L H : Type 0} → LockSystem L H → LockSystem (Logged L H) H
logged locks = record {
  now = λ (s, es). locks.now s;
  create = λ (s, es) now d. logged_result token es (locks.create s now d);
  refresh = λ (s, es) now t d. let (s', r) = locks.refresh s now t d in ((s', es), r);
  unlock = λ (s, es) now t. (locks.unlock s now t, returned (token t) ∷ es);
  confirm = λ (s, es) now a b cs. logged_result handle es (locks.confirm s now a b cs);
  release = λ (s, es) h. (locks.release s h, returned (handle h) ∷ es);
  covers = λ (s, es) now t n. locks.covers s now t n;
}

-- A handler, whose own calls are not written down.
abbrev pub unlogged : {L H A : Type 0} → (L → L × A) → Logged L H → Logged L H × A
unlogged next (s, es) = let (s', a) = next s in ((s', es), a)

module _ {L H : Type 0} (p : Taken H → Bool) where
  -- By how much more is taken than given back, and by how much less.
  abbrev owed : Logged L H → ℕ × ℕ
  owed (s, es) = (count_taken p es - count_returned p es, count_returned p es - count_taken p es)

  owed-same :
      (s s' : L) (es es' : List (Event H))
      → count_taken p es + count_returned p es' ≡ count_taken p es' + count_returned p es
      → owed (s, es) ≡ owed (s', es')
  owed-same s s' es es' e =
      let more : count_taken p es - count_returned p es ≡ count_taken p es' - count_returned p es' =
        omega (arith, e) in
      let less : count_returned p es - count_taken p es ≡ count_returned p es' - count_taken p es' =
        omega (arith, e) in
      ap (λ a. (a, count_returned p es - count_taken p es)) more
      ∙ ap (λ b. (count_taken p es' - count_returned p es', b)) less

  owed-cross :
      (s s' : L) (es es' : List (Event H))
      → owed (s, es) ≡ owed (s', es')
      → count_taken p es + count_returned p es' ≡ count_taken p es' + count_returned p es
  owed-cross s s' es es' e = omega (arith, ap (λ q. q.0) e, ap (λ q. q.1) e)

  owed-taken :
      (s s' : L) (x : Taken H) (es : List (Event H))
      → owed (s', returned x ∷ taken x ∷ es) ≡ owed (s, es)
  unfolding count_taken count_returned
  owed-taken s s' x es = owed-same s' s (returned x ∷ taken x ∷ es) es (omega arith)

  owed-returned :
      (s s' u u' : L) (x : Taken H) (es es' : List (Event H))
      → owed (s, es) ≡ owed (s', es')
      → owed (u, returned x ∷ es) ≡ owed (u', returned x ∷ es')
  unfolding count_taken count_returned
  owed-returned s s' u u' x es es' e =
      owed-same u u' (returned x ∷ es) (returned x ∷ es') (omega (arith, owed-cross s s' es es' e))

  module _ (locks : LockSystem L H) where
    logged_result-Created :
        (s : L) (es : List (Event H)) (r : L × Result LockFault Bytes)
        → Created (logged locks) owed (s, es) (logged_result token es r)
    unfolding logged_result
    logged_result-Created s es (s', ok t) = λ now. owed-taken s (locks.unlock s' now t) (token t) es
    logged_result-Created s es (s', err e) = refl

    logged_result-Confirmed :
        (s : L) (es : List (Event H)) (r : L × Result LockFault H)
        → Confirmed (logged locks) owed (s, es) (logged_result handle es r)
    unfolding logged_result
    logged_result-Confirmed s es (s', ok h) = owed-taken s (locks.release s' h) (handle h) es
    logged_result-Confirmed s es (s', err e) = refl

    logged-GivesBack : GivesBack (logged locks) owed
    logged-GivesBack = record {
      created = λ (s, es) now d. logged_result-Created s es (locks.create s now d);
      confirmed = λ (s, es) now a b cs. logged_result-Confirmed s es (locks.confirm s now a b cs);
      unlock_cong = λ (s, es) (s', es') now t e.
          owed-returned s s' (locks.unlock s now t) (locks.unlock s' now t) (token t) es es' e;
      release_cong = λ (s, es) (s', es') h e.
          owed-returned s s' (locks.release s h) (locks.release s' h) (handle h) es es' e;
    }

    logged_result-Named :
        (es : List (Event H)) (r : L × Result LockFault Bytes)
        → Named r
        → Named (logged_result token es r)
    unfolding logged_result
    logged_result-Named es (s, ok t) h = h
    logged_result-Named es (s, err e) h = tt

    logged-HasTokens : HasTokens locks → HasTokens (logged locks)
    logged-HasTokens h (s, es) now d = logged_result-Named es (locks.create s now d) (h s now d)

-- What the lock system was asked for while the gate served a request or refused it, the last first.
abbrev pub log_of :
    {L H A : Type 0} → LockSystem L H → Headers → Urls → (L → L × A) → Request → L → List (Event H)
log_of locks headers urls next r s =
    (enforce_locks (logged locks) headers urls (unlogged next) r (s, [])).0.1

-- Whatever a request says and however the lock system answers, and whether the request is served or
-- refused: by the time the gate returns, it has unlocked each token as often as a lock was made with
-- it, and released each confirmation as often as it was given. No token of the lock system is empty.
pub enforce_locks-balanced :
    {L H A : Type 0} (locks : LockSystem L H)
    → HasTokens locks
    → (headers : Headers) (urls : Urls) (next : L → L × A) (r : Request) (s : L)
    → (p : Taken H → Bool)
    → count_taken p (log_of locks headers urls next r s)
      ≡ count_returned p (log_of locks headers urls next r s)
unfolding count_taken count_returned
enforce_locks-balanced locks tokens headers urls next r s p =
    let e =
      enforced-view (logged locks) (owed p) (logged-GivesBack p locks)
        (logged-HasTokens p locks tokens) headers urls (unlogged next) (λ (s, es). refl) r
        (s, []) in
    omega (
      arith,
      owed-cross p (enforce_locks (logged locks) headers urls (unlogged next) r (s, [])).0.0 s
          (log_of locks headers urls next r s) [] e,
    )
