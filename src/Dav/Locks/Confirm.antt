-- ===== src/Dav/Locks/Confirm.antt =====
-- What a request has to hold to go ahead: `confirmLocks` and what it calls, and the gate
-- `enforceLocks`. The parser of the If header, the entity tag of a stored file and strconv.Unquote are
-- parameters.
use stratus_backend.Prelude.{
  ℕ, Bool, true, false, not, ◌||◌, ◌&&◌, List, [], ◌∷◌, Option, none, some, if◌then◌else◌,
}
use stratus_backend.Prelude.Int.{ℤ, pos}
use stratus_backend.Prelude.Text.{Bytes, codes, beq}
use stratus_backend.Prelude.Result.{Result, ok, err}
use stratus_backend.Dav.Locks.System.{
  LockFault, locked, forbidden, no_such_lock, confirmation_failed, other, LockDetails, Condition,
  LockSystem,
}
use stratus_backend.Dav.Locks.Paths.{Urls, Request, lock_name, to_path, tagged, locked_paths}

-- ifList
pub record IfList : Type 0 where
  pub resource_tag : Bytes
  pub conditions : List Condition

pub record Headers : Type 0 where
  -- parseIfHeader
  pub parse_if : Bytes → Option (List IfList)
  -- the entity tag of the owner's file at a name, where there is one
  pub stat : Bytes → Option Bytes
  -- strconv.Unquote
  pub unquote : Bytes → Option Bytes

-- The function that a confirmation returns, by what it gives back when it is
-- called and the time that it then says.
pub data Release (H : Type 0) : Type 0 where
  confirmed : H → Release H
  claimed : ℤ → Bytes → H → Release H
  held : ℤ → Bytes → Bytes → Release H

-- briefLock, a minute of nanoseconds.
abbrev pub brief_lock : ℤ
brief_lock = pos 60_000_000_000

-- The details of holdBriefly.
abbrev pub brief_details : Bytes → LockDetails
brief_details path = record {
  root = path;
  duration = brief_lock;
  owner_xml = [];
  zero_depth = true;
  for_the_request = true;
}

-- lockStatus
unfoldable pub lock_status : LockFault → ℕ
lock_status locked = 423
lock_status forbidden = 403
lock_status no_such_lock = 412
lock_status confirmation_failed = 500
lock_status other = 500

abbrev pub is_confirmation_failed : LockFault → Bool
is_confirmation_failed confirmation_failed = true
is_confirmation_failed _ = false

-- lockedMethods
unfoldable pub is_locked_method : Bytes → Bool
is_locked_method m =
    (beq m (codes "PUT") || (beq m (codes "DELETE") || beq m (codes "MKCOL")))
    || (beq m (codes "MOVE") || (beq m (codes "COPY") || beq m (codes "PROPPATCH")))

-- claimable
unfoldable pub claimable : List Condition → List Condition
claimable [] = []
claimable (c ∷ cs) =
    let rest = claimable cs in if not (beq c.token []) && not c.negated then c ∷ rest else rest

module _ {L H : Type 0} (locks : LockSystem L H) where
  -- A lock on a path, or nothing for a path that the request does not have.
  unfoldable pub hold : L → ℤ → Bytes → L × Result LockFault Bytes
  hold s now [] = (s, ok [])
  hold s now (c ∷ path) = locks.create s now (brief_details (c ∷ path))

  unfoldable pub let_go : L → ℤ → Bytes → L
  let_go s now [] = s
  let_go s now (c ∷ token) = locks.unlock s now (c ∷ token)

  -- The release of each kind.
  unfoldable pub run_release : L → Release H → L
  unfolding let_go
  run_release s (confirmed h) = locks.release s h
  run_release s (claimed now token h) = locks.release (locks.unlock s now token) h
  run_release s (held now src_token dst_token) = let_go (let_go s now dst_token) now src_token

  -- lockForTheRequest: once the second lock was asked for, and once the first one was.
  unfoldable pub both_held :
      ℤ → Bytes → L × Result LockFault Bytes → L × Result LockFault (Release H)
  unfolding let_go
  both_held now src_token (s, err e) = (let_go s now src_token, err e)
  both_held now src_token (s, ok dst_token) = (s, ok (held now src_token dst_token))

  unfoldable pub source_held :
      ℤ → Bytes → L × Result LockFault Bytes → L × Result LockFault (Release H)
  unfolding hold both_held
  source_held now dst (s, err e) = (s, err e)
  source_held now dst (s, ok src_token) = both_held now src_token (hold s now dst)

  unfoldable pub lock_for_the_request : L → Bytes → Bytes → L × Result LockFault (Release H)
  unfolding source_held hold
  lock_for_the_request s src dst = let now = locks.now s in source_held now dst (hold s now src)

  -- claimOneHoldTheOther, `none` for false.
  unfoldable pub other_held : ℤ → H → L × Result LockFault Bytes → L × Option (Release H)
  other_held now h (s, err e) = (locks.release s h, none)
  other_held now h (s, ok token) = (s, some (claimed now token h))

  unfoldable pub one_claimed : ℤ → Bytes → L × Result LockFault H → L × Option (Release H)
  unfolding other_held
  one_claimed now free (s, err e) = (s, none)
  one_claimed now free (s, ok h) = other_held now h (locks.create s now (brief_details free))

  unfoldable pub claim_one_hold_the_other :
      L → ℤ → Bytes → Bytes → List Condition → L × Option (Release H)
  unfolding one_claimed
  claim_one_hold_the_other s now name free cs =
      one_claimed now free (locks.confirm s now name [] cs)

  -- claimTouched: the destination claimed, the source claimed, and both at once.
  unfoldable pub destination_claimed : L × Option (Release H) → L × Result LockFault (Release H)
  destination_claimed (s, some r) = (s, ok r)
  destination_claimed (s, none) = (s, err confirmation_failed)

  unfoldable pub source_claimed :
      ℤ → Bytes → Bytes → List Condition → L × Option (Release H) → L × Result LockFault (Release H)
  unfolding destination_claimed claim_one_hold_the_other
  source_claimed now src dst cs (s, some r) = (s, ok r)
  source_claimed now src dst cs (s, none) =
      if beq src []
      then (s, err confirmation_failed)
      else destination_claimed (claim_one_hold_the_other s now dst src cs)

  unfoldable pub both_claimed :
      ℤ → Bytes → Bytes → List Condition → L × Result LockFault H → L × Result LockFault (Release H)
  unfolding source_claimed claim_one_hold_the_other
  both_claimed now src dst cs (s, ok h) = (s, ok (confirmed h))
  both_claimed now src dst cs (s, err e) =
      if not (is_confirmation_failed e) || beq dst []
      then (s, err e)
      else source_claimed now src dst cs (claim_one_hold_the_other s now src dst cs)

  unfoldable pub claim_touched :
      L → ℤ → Bytes → Bytes → List Condition → L × Result LockFault (Release H)
  unfolding both_claimed
  claim_touched s now src dst cs = both_claimed now src dst cs (locks.confirm s now src dst cs)

  -- The end of a round of the loop in confirmLocks, with the rest of the loop.
  unfoldable pub after_hold :
      (L → L × Result ℕ (Release H)) → L × Result LockFault (Release H) → L × Result ℕ (Release H)
  after_hold rest (s, ok r) = (s, ok r)
  after_hold rest (s, err e) = rest s

  unfoldable pub after_claim :
      (L → L × Result ℕ (Release H))
      → Bytes
      → Bytes
      → L × Result LockFault (Release H)
      → L × Result ℕ (Release H)
  unfolding after_hold
  after_claim rest src dst (s, ok r) = (s, ok r)
  after_claim rest src dst (s, err e) =
      if not (is_confirmation_failed e)
      then (s, err 500)
      else after_hold rest (lock_for_the_request s src dst)

  unfoldable pub with_status : L × Result LockFault (Release H) → L × Result ℕ (Release H)
  unfolding lock_status
  with_status (s, ok r) = (s, ok r)
  with_status (s, err e) = (s, err (lock_status e))

  module _ (headers : Headers) (urls : Urls) where
    -- etagIs, for a name with its slash.
    unfoldable pub etag_is : Bytes → Bytes → Bool
    etag_is name tag = elim (headers.stat name) [
      | none ↦ false
      | some etag ↦
          if beq etag []
          then false
          else elim (headers.unquote tag) [ none ↦ false | some unquoted ↦ beq unquoted etag ]
    ]

    -- Is one condition what the list says? One with neither token nor tag never is.
    unfoldable pub is_met : L → ℤ → Bytes → Condition → Bool
    is_met s now name c =
        if not (beq c.token [])
        then (if locks.covers s now c.token name then not c.negated else c.negated)
        else if not (beq c.etag [])
        then (if etag_is name c.etag then not c.negated else c.negated)
        else false

    -- holds
    unfoldable pub holds : L → ℤ → List Condition → Bytes → Bool
    holds s now [] name = true
    holds s now (c ∷ cs) name = is_met s now name c && holds s now cs name

    -- The resource that a list is about, where it is about one that the request touches.
    unfoldable pub about_of : Request → Bytes → Bytes → Bytes → IfList → Option Bytes
    about_of r requested src dst l =
        if beq l.resource_tag [] then some requested else tagged urls r l.resource_tag src dst

    -- The loop over the lists.
    unfoldable pub confirm_lists :
        ℤ → Request → Bytes → Bytes → Bytes → List IfList → L → L × Result ℕ (Release H)
    unfolding after_claim
    confirm_lists now r requested src dst [] s = (s, err 412)
    confirm_lists now r requested src dst (l ∷ ls) s = elim (about_of r requested src dst l) [
      | none ↦ confirm_lists now r requested src dst ls s
      | some about ↦ elim (holds s now l.conditions about) [
        | false ↦ confirm_lists now r requested src dst ls s
        | true ↦
            after_claim (confirm_lists now r requested src dst ls) src dst
              (claim_touched s now src dst (claimable l.conditions))
      ]
    ]

    -- The resource of an untagged list: the one that the URL names.
    unfoldable pub requested_of : Request → Bytes → Bytes
    requested_of r src = elim (to_path urls r.path) [ none ↦ src | some p ↦ lock_name p ]

    -- confirmLocks, a refusal with its status.
    unfoldable pub confirm_locks : Request → Bytes → Bytes → L → L × Result ℕ (Release H)
    unfolding confirm_lists
    confirm_locks r src dst s =
        if beq r.if_header []
        then with_status (lock_for_the_request s src dst)
        else elim (headers.parse_if r.if_header) [
          | none ↦ (s, err 400)
          | some lists ↦ confirm_lists (locks.now s) r (requested_of r src) src dst lists s
        ]

    -- enforceLocks around a handler that answers with an `A` and may change the locks.
    module _ {A : Type 0} (next : L → L × A) where
      unfoldable pub answered : L × A → L × Result ℕ A
      answered (s, a) = (s, ok a)

      unfoldable pub released : Release H → L × A → L × Result ℕ A
      unfolding run_release
      released r (s, a) = (run_release s r, ok a)

      unfoldable pub guarded : L × Result ℕ (Release H) → L × Result ℕ A
      unfolding released
      guarded (s, err status) = (s, err status)
      guarded (s, ok r) = released r (next s)

      unfoldable pub enforce_locks : Request → L → L × Result ℕ A
      unfolding guarded answered
      enforce_locks r s =
          if not (is_locked_method r.method) || not r.has_owner
          then answered (next s)
          else elim (locked_paths urls r) [
            | none ↦ answered (next s)
            | some (src, dst) ↦ guarded (confirm_locks r src dst s)
          ]
