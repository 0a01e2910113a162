-- ===== src/Dav/Locks/Paths.antt =====
-- The names that locks have: `toPath`, `destPath`, `lockName`, `covers`, `tagged` and `lockedPaths`.
-- path.Clean and url.Parse are parameters.
use stratus_backend.Prelude.{
  ◌≡◌, Bool, true, false, not, ◌||◌, ◌&&◌, [], ◌∷◌, ◌++◌, Option, none, some, ◌==◌, if◌then◌else◌,
  arith,
}
use mathlib.Core.List.{reverse}
use stratus_backend.Prelude.Text.{Bytes, codes, beq, has_prefix, cut_prefix}
use stratus_backend.Db.Path.{validate_path, subtree_range}
use stratus_backend.Db.Path.Subtree.{in_range, in_range-subtree_range}

-- Go's library, and where this collection is served from.
pub record Urls : Type 0 where
  -- path.Clean
  pub clean : Bytes → Bytes
  -- url.Parse: the host and the path
  pub parse_url : Bytes → Option (Bytes × Bytes)
  pub prefix : Bytes

pub record Request : Type 0 where
  pub method : Bytes
  pub host : Bytes
  pub path : Bytes
  pub if_header : Bytes
  pub destination : Bytes
  pub has_owner : Bool

trim_leading : Bytes → Bytes
trim_leading [] = []
trim_leading (c ∷ s) = let rest = trim_leading s in if c == b'/' then rest else c ∷ s

-- strings.Trim(s, "/")
unfoldable pub trim_slashes : Bytes → Bytes
unfolding trim_leading
trim_slashes s = reverse (trim_leading (reverse (trim_leading s)))

-- strings.TrimPrefix
unfoldable pub trim_prefix : Bytes → Bytes → Bytes
trim_prefix s p = elim (cut_prefix s p) [ none ↦ s | some rest ↦ rest ]

-- lockName
abbrev pub lock_name : Bytes → Bytes
lock_name p = codes "/" ++ p

-- covers
unfoldable pub covers_name : Bytes → Bytes → Bool
covers_name name target =
    if beq target []
    then false
    else if beq name target || beq name (codes "/")
    then true
    else has_prefix target (name ++ codes "/")

module _ (urls : Urls) where
  -- toPath, `none` for an error.
  unfoldable pub to_path : Bytes → Option Bytes
  to_path name =
      let p = trim_slashes (urls.clean (codes "/" ++ name)) in
      if beq p [] then some [] else elim (validate_path p) [ some e ↦ none | none ↦ some p ]

  -- destPath, `none` for an error.
  unfoldable pub dest_path : Bytes → Option Bytes
  dest_path dest =
      let p : Bytes = elim (urls.parse_url dest) [ none ↦ dest | some (host, path) ↦ path ] in
      let trimmed = trim_prefix (urls.clean (codes "/" ++ p)) urls.prefix in
      if beq trimmed p && not (beq urls.prefix []) then none else to_path trimmed

  -- tagged: the resource that a list's tag is about, where this request touches it.
  unfoldable pub tagged : Request → Bytes → Bytes → Bytes → Option Bytes
  tagged r tag src dst = elim (urls.parse_url tag) [
    | none ↦ none
    | some (host, path) ↦
        if not (beq host []) && not (beq host r.host)
        then none
        else elim (to_path (trim_prefix path urls.prefix)) [
          | none ↦ none
          | some p ↦
              if not (covers_name (lock_name p) src) && not (covers_name (lock_name p) dst)
              then none
              else some (lock_name p)
        ]
  ]

  -- The destination of a MOVE or a COPY, "" for another method.
  unfoldable pub destination_of : Request → Option Bytes
  destination_of r =
      if beq r.method (codes "MOVE") || beq r.method (codes "COPY")
      then elim (dest_path r.destination) [ none ↦ none | some to ↦ some (lock_name to) ]
      else some []

  -- lockedPaths
  unfoldable pub locked_paths : Request → Option (Bytes × Bytes)
  locked_paths r = elim (to_path r.path) [
    | none ↦ none
    | some p ↦ elim (destination_of r) [
      | none ↦ none
      | some dst ↦ some (if beq r.method (codes "COPY") then [] else lock_name p, dst)
    ]
  ]

-- A lock on a path covers the path itself and what is in the range of paths of its subtree, as the
-- queries of the database read it, and nothing else; a lock on the root covers every path.
pub covers_name-subtree_range :
    (dir path : Bytes)
    → covers_name (lock_name dir) (lock_name path)
      ≡ (beq dir path || in_range (subtree_range dir) path)
unfolding covers_name beq cut_prefix
covers_name-subtree_range [] path = ground (arith, in_range-subtree_range [] path)
covers_name-subtree_range (d ∷ dir) path = ground (arith, in_range-subtree_range (d ∷ dir) path)
