-- ===== src/Dav/Tests.antt =====
-- The gate with a small lock system: a list of the locked paths, the last one first.
use stratus_backend.Prelude.{
  ◌≡◌, ◌||◌, refl, Bool, true, false, List, [], ◌∷◌, none, some, if◌then◌else◌,
}
use stratus_backend.Prelude.Int.{ℤ, pos}
use stratus_backend.Prelude.Text.{Bytes, codes, beq, cut_prefix, cut_suffix, split}
use stratus_backend.Prelude.Utf8.{runes}
use stratus_backend.Prelude.Segments.{has_control}
use stratus_backend.Prelude.Result.{Result, ok, err}
use stratus_backend.Db.Path.{subtree_range, validate_path, segments_fault, segment_fault}
use stratus_backend.Db.Path.Subtree.{in_range}
use stratus_backend.Dav.Locks.System.{
  LockFault, locked, confirmation_failed, no_such_lock, LockDetails, LockSystem, with_opaque_tokens,
  with_opaque_tokens-HasTokens, inner_token, outer_token,
}
use stratus_backend.Dav.Locks.Paths.{
  Urls, Request, covers_name, lock_name, covers_name-subtree_range, locked_paths, to_path,
  trim_slashes, destination_of,
}
use stratus_backend.Dav.Locks.Confirm.{
  Headers, held, enforce_locks, confirm_locks, is_locked_method, with_status, lock_for_the_request,
  lock_status, let_go, run_release, guarded, released,
}
use stratus_backend.Dav.Locks.Balance.{
  token, taken, returned, count_taken, count_returned, log_of, logged_result,
  enforce_locks-balanced,
}
use stratus_backend.Dav.Locks.Holds.{BothHeld, confirm_locks-BothHeld}

covers_name-subtree_range_example :
    covers_name (lock_name (codes "a")) (lock_name (codes "ab"))
    ≡ (beq (codes "a") (codes "ab") || in_range (subtree_range (codes "a")) (codes "ab"))
covers_name-subtree_range_example = covers_name-subtree_range (codes "a") (codes "ab")

unfoldable is_locked : List Bytes → Bytes → Bool
is_locked [] path = false
is_locked (p ∷ ps) path = beq p path || is_locked ps path

create_in : List Bytes → ℤ → LockDetails → List Bytes × Result LockFault Bytes
create_in s now d = if is_locked s d.root then (s, err locked) else (d.root ∷ s, ok d.root)

-- The last lock, where the token is its path.
unlock_in : List Bytes → ℤ → Bytes → List Bytes
unlock_in [] now t = []
unlock_in (p ∷ ps) now t = if beq p t then ps else p ∷ ps

-- A confirmation takes nothing: it asks whether the first path is locked.
abbrev listed : LockSystem (List Bytes) (Unit {0})
listed = record {
  now = λ s. pos 7;
  create = create_in;
  refresh = λ s now t d. (s, err no_such_lock);
  unlock = unlock_in;
  confirm = λ s now a b cs. (s, if is_locked s a then ok tt else err confirmation_failed);
  release = λ s h. s;
  covers = λ s now t n. is_locked s n;
}

abbrev gate : LockSystem (List Bytes) (Unit {0})
gate = with_opaque_tokens listed

abbrev urls : Urls
urls = record { clean = λ p. p; parse_url = λ u. some ([], u); prefix = [] }

-- Any header is one list with no tag, for the lock on `/a`.
abbrev headers : Headers
headers = record {
  parse_if = λ h. some (
      record {
        resource_tag = [];
        conditions = record { negated = false; token = codes "opaquelocktoken:/a"; etag = [] } ∷ [];
      }
      ∷ []);
  stat = λ n. none;
  unquote = λ t. none;
}

abbrev put : Bytes → Request
put header = record {
  method = codes "PUT";
  host = [];
  path = codes "a";
  if_header = header;
  destination = [];
  has_owner = true;
}

-- A handler that answers with the locks that it saw.
abbrev next : List Bytes → List Bytes × List Bytes
next s = (s, s)

-- A lock was made and unlocked.
made_and_unlocked :
    log_of gate headers urls next (put []) []
    ≡ returned (token (codes "opaquelocktoken:/a"))
      ∷ taken (token (codes "opaquelocktoken:/a"))
      ∷ []
unfolding enforce_locks guarded released run_release let_go beq cut_prefix cut_suffix split runes
    has_control validate_path segments_fault segment_fault is_locked_method to_path trim_slashes
    destination_of locked_paths confirm_locks with_status lock_for_the_request outer_token
    inner_token create_in unlock_in is_locked logged_result
made_and_unlocked = refl

enforce_locks-balanced_example :
    count_taken (λ x. true) (log_of gate headers urls next (put []) [])
    ≡ count_returned (λ x. true) (log_of gate headers urls next (put []) [])
enforce_locks-balanced_example =
    enforce_locks-balanced gate (with_opaque_tokens-HasTokens listed) headers urls next (put []) []
      (λ x. true)

-- While the handler runs, the path is locked.
served : enforce_locks gate headers urls next (put []) [] ≡ ([], ok (codes "/a" ∷ []))
unfolding enforce_locks guarded released run_release let_go beq cut_prefix cut_suffix split runes
    has_control validate_path segments_fault segment_fault is_locked_method to_path trim_slashes
    destination_of locked_paths confirm_locks with_status lock_for_the_request outer_token
    inner_token create_in unlock_in is_locked
served = refl

refused :
    enforce_locks gate headers urls next (put []) (codes "/a" ∷ []) ≡ (codes "/a" ∷ [], err 423)
unfolding enforce_locks guarded released run_release let_go beq cut_prefix cut_suffix split runes
    has_control validate_path segments_fault segment_fault is_locked_method to_path trim_slashes
    destination_of locked_paths confirm_locks with_status lock_for_the_request outer_token
    inner_token create_in unlock_in is_locked lock_status
refused = refl

taken_one :
    confirm_locks gate headers urls (put []) (codes "/a") [] []
    ≡ (codes "/a" ∷ [], ok (held (pos 7) (codes "opaquelocktoken:/a") []))
unfolding confirm_locks beq with_status lock_for_the_request outer_token create_in is_locked
taken_one = refl

confirm_locks-BothHeld_example :
    BothHeld gate
      (pos 7)
      []
      (codes "/a")
      []
      (codes "/a" ∷ [])
      (held (pos 7) (codes "opaquelocktoken:/a") [])
unfolding beq
confirm_locks-BothHeld_example =
    confirm_locks-BothHeld gate (with_opaque_tokens-HasTokens listed) headers urls (put [])
      (codes "/a") [] [] (codes "/a" ∷ []) (held (pos 7) (codes "opaquelocktoken:/a") []) refl
      taken_one
