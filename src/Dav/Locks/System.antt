-- ===== src/Dav/Locks/System.antt =====
-- The interface `lockSystem` of internal/dav/locks.go, what the gate relies on, and `opaqueTokens`,
-- which puts a scheme on the tokens of another lock system.
use stratus_backend.Prelude.{◌≡◌, ◌≢◌, Bool, List, [], ◌∷◌, ◌++◌, Option, none, some, map}
use stratus_backend.Prelude.Int.{ℤ}
use stratus_backend.Prelude.Text.{Bytes, codes, cut_prefix}
use stratus_backend.Prelude.Result.{Result, ok, err}

-- The errors of the lock system that are told apart.
pub data LockFault : Type 0 where
  locked forbidden no_such_lock confirmation_failed other : LockFault

pub record LockDetails : Type 0 where
  pub root : Bytes
  pub duration : ℤ
  pub owner_xml : Bytes
  pub zero_depth : Bool
  pub for_the_request : Bool

-- A condition of an If header: a token or an entity tag, said to hold or not to.
pub record Condition : Type 0 where
  pub negated : Bool
  pub token : Bytes
  pub etag : Bytes

-- The lock system over a state `L`, where a confirmation gives a handle `H` to release. Each call is
-- told the time, save the release of a confirmation, which is a function with no argument. What
-- unlocking and releasing answer is not looked at. `now` is the clock that the file system reads, of
-- which the state knows the time.
pub record LockSystem (L H : Type 0) : Type 0 where
  pub now : L → ℤ
  pub create : L → ℤ → LockDetails → L × Result LockFault Bytes
  pub refresh : L → ℤ → Bytes → ℤ → L × Result LockFault LockDetails
  pub unlock : L → ℤ → Bytes → L
  pub confirm : L → ℤ → Bytes → Bytes → List Condition → L × Result LockFault H
  pub release : L → H → L
  pub covers : L → ℤ → Bytes → Bytes → Bool

abbrev pub Named : {L : Type 0} → L × Result LockFault Bytes → Type 0
Named (s, ok t) = t ≢ []
Named (s, err e) = Unit

abbrev pub HasTokens : {L H : Type 0} → LockSystem L H → Type 0
HasTokens {L} locks = (s : L) (now : ℤ) (d : LockDetails) → Named (locks.create s now d)

abbrev pub lock_uri_scheme : Bytes
lock_uri_scheme = codes "opaquelocktoken:"

or_empty : Option Bytes → Bytes
or_empty none = []
or_empty (some rest) = rest

-- innerToken
unfoldable pub inner_token : Bytes → Bytes
unfolding or_empty
inner_token token = or_empty (cut_prefix token lock_uri_scheme)

abbrev pub inner_condition : Condition → Condition
inner_condition c = record c { token = inner_token c.token }

unfoldable pub outer_token : {L : Type 0} → L × Result LockFault Bytes → L × Result LockFault Bytes
outer_token (s, err e) = (s, err e)
outer_token (s, ok t) = (s, ok (lock_uri_scheme ++ t))

-- withOpaqueTokens
abbrev pub with_opaque_tokens : {L H : Type 0} → LockSystem L H → LockSystem L H
with_opaque_tokens locks = record {
  now = locks.now;
  create = λ s now d. outer_token (locks.create s now d);
  refresh = λ s now t d. locks.refresh s now (inner_token t) d;
  unlock = λ s now t. locks.unlock s now (inner_token t);
  confirm = λ s now a b cs. locks.confirm s now a b (map inner_condition cs);
  release = locks.release;
  covers = λ s now t n. locks.covers s now (inner_token t) n;
}

outer_token-Named : {L : Type 0} (r : L × Result LockFault Bytes) → Named (outer_token r)
unfolding outer_token
outer_token-Named (s', ok t) = λ e. cc e
outer_token-Named (s', err e) = tt

pub with_opaque_tokens-HasTokens :
    {L H : Type 0} (locks : LockSystem L H) → HasTokens (with_opaque_tokens locks)
with_opaque_tokens-HasTokens locks s now d = outer_token-Named (locks.create s now d)

-- In every call, at any later state and time, one token means for `outer` what another means for
-- `inner`: to refresh a lock, to unlock it, to ask what it covers, and in a condition of a confirmation.
abbrev pub MeansTheSame : {L H : Type 0} → LockSystem L H → LockSystem L H → Bytes → Bytes → Type 0
MeansTheSame {L} outer inner t u =
    (s : L) (now : ℤ)
    → ((d : ℤ) → outer.refresh s now t d ≡ inner.refresh s now u d)
      × (outer.unlock s now t ≡ inner.unlock s now u)
      × ((name : Bytes) → outer.covers s now t name ≡ inner.covers s now u name)
      × ((a b : Bytes) (negated : Bool)
          → outer.confirm s now a b (record { negated = negated; token = t; etag = [] } ∷ [])
            ≡ inner.confirm s now a b (record { negated = negated; token = u; etag = [] } ∷ []))
