-- ===== src/Dav/Locks/Claims.antt =====
-- What an If header has to say for a request to go ahead.
use stratus_backend.Prelude.{◌≡◌, ◌≢◌, Bool, true, false, List, [], ◌∷◌, some, ◌⊎◌, All}
use stratus_backend.Prelude.Int.{ℤ}
use stratus_backend.Prelude.Text.{Bytes}
use stratus_backend.Dav.Locks.System.{Condition, LockSystem}
use stratus_backend.Dav.Locks.Paths.{Urls, Request, tagged}
use stratus_backend.Dav.Locks.Confirm.{IfList, Headers}

-- What a condition says of a fact: that it holds, or where it is negated that it does not.
abbrev pub IsSaid : Bool → Type 0 → Type 0
IsSaid false P = P
IsSaid true P = ¬ P

module _ {L H : Type 0} (locks : LockSystem L H) (headers : Headers) (urls : Urls) where
  -- The tag, its quotes taken off, is the one of the stored file, which has one.
  abbrev pub IsEtag : Bytes → Bytes → Type 0
  IsEtag name tag =
      (etag : Bytes) × (headers.stat name ≡ some etag)
      × (etag ≢ [])
      × (headers.unquote tag ≡ some etag)

  -- A condition with a token says that the token covers the name, or does not; one with no token and
  -- an entity tag says that the tag is the stored one, or is not. One with neither is never true.
  abbrev pub IsTrueOf : L → ℤ → Bytes → Condition → Type 0
  IsTrueOf s now name c =
      ((c.token ≢ []) × IsSaid c.negated (locks.covers s now c.token name ≡ true))
      ⊎ ((c.token ≡ []) × (c.etag ≢ []) × IsSaid c.negated (IsEtag name c.etag))

  module _ (r : Request) (requested src dst : Bytes) where
    -- What a list is about: the resource requested where it has no tag, else the one that its tag
    -- names where the request touches it.
    abbrev pub IsAbout : IfList → Bytes → Type 0
    IsAbout l about =
        ((l.resource_tag ≡ []) × (about ≡ requested))
        ⊎ ((l.resource_tag ≢ []) × (tagged urls r l.resource_tag src dst ≡ some about))

    -- Some list is about a resource of the request, and all its conditions are true of it.
    abbrev pub SomeListHolds : List IfList → L → ℤ → Type 0
    SomeListHolds [] s now = ⊥
    SomeListHolds (l ∷ ls) s now =
        ((about : Bytes) × IsAbout l about × All (IsTrueOf s now about) l.conditions)
        ⊎ SomeListHolds ls s now
