-- ===== src/Files/Collect.antt =====
-- The sweep of blobs that no row points at: Collect of internal/files/collect.go.
use stratus_backend.Prelude.{
  ℕ, suc, ◌+◌, Bool, false, not, ◌&&◌, ◌||◌, List, [], ◌∷◌, ◌++◌, none, some, length, if◌then◌else◌,
}
use stratus_backend.Prelude.Int.{ℤ, pos, ◌+ℤ◌, leb_ℤ, ltb_ℤ}
use stratus_backend.Prelude.Text.{Bytes, beq, has_prefix}
use stratus_backend.Files.World.{Env, File, Object, World, empty_index}
use stratus_backend.Files.Action.{Action, ◌>>=◌, ◌>>◌, pure, gets, demand, alone}
use stratus_backend.Files.Key.{is_one_of, backup_prefix, parent_of_key, stale_generation, cached}
use stratus_backend.Files.Repo.{blob_keys, is_nil, where_}
use stratus_backend.Files.Repo.Trash.{trash_rows, trash_keys}
use stratus_backend.Files.Store.{store_list, store_delete}

-- CacheRetention: a week, in milliseconds.
abbrev pub cache_retention : ℤ
cache_retention = pos 604800000

-- Collected
pub record Collected : Type 0 where
  pub scanned : ℕ
  pub deleted : ℕ
  pub trashed : ℕ
  pub bytes : ℕ

-- An object that is scanned and written no later than the cutoff, the age before `moment`.
unfoldable pub is_old : ℤ → ℤ → Object → Bool
is_old moment age o = leb_ℤ (o.mtime +ℤ age) moment

unfoldable pub is_scanned : Object → Bool
is_scanned o = not (has_prefix o.key backup_prefix)

-- The originals that no key names.
unfoldable pub is_orphan : List Bytes → Object → Bool
is_orphan referenced o = elim (parent_of_key o.key) [
  | some parent ↦ false
  | none ↦ not (is_one_of referenced o.key)
]

-- The keys of derivedKeys: derived, from a parent that the key names.
unfoldable pub is_derived : Object → Bool
is_derived o = elim (parent_of_key o.key) [ none ↦ false | some parent ↦ not (beq parent []) ]

-- The row that an orphan has in the trash.
unfoldable pub orphan_row : Object → File
orphan_row o = record {
  id = 0;
  owner = [];
  path = [];
  parent = [];
  blob_key = o.key;
  size = length o.content;
  mtime = o.mtime;
  etag = [];
  mime_type = [];
  is_dir = false;
}

unfoldable pub rows_of : List Object → List File
unfolding orphan_row
rows_of [] = []
rows_of (o ∷ os) = orphan_row o ∷ rows_of os

unfoldable pub keys_of : List Object → List Bytes
keys_of [] = []
keys_of (o ∷ os) = o.key ∷ keys_of os

-- Whether the last loop keeps a derived object.
unfoldable pub is_kept : List Bytes → ℤ → Object → Bool
is_kept referenced moment o = elim (parent_of_key o.key) [
  | none ↦ false
  | some parent ↦
      is_one_of referenced parent
      && not (stale_generation o.key || (cached o.key && ltb_ℤ (o.mtime +ℤ cache_retention) moment))
]

module _ (env : Env) where
  -- The originals to the trash.
  unfoldable pub trash_orphans : List Object → Action World (Unit {0})
  unfolding rows_of
  trash_orphans orphans =
      if is_nil orphans
      then pure tt
      else gets (λ w. w.tick) >>= λ t.
          alone (trash_rows env (env.random t) (rows_of orphans) (env.clock t))

  -- The last loop.
  unfoldable pub delete_derived : List Bytes → Collected → List Object → Action World Collected
  unfolding is_kept
  delete_derived referenced done [] = pure done
  delete_derived referenced done (o ∷ os) =
      gets (λ w. is_kept referenced (env.clock w.tick) o) >>= λ kept.
      if kept
      then delete_derived referenced done os
      else store_delete env o.key
        >> delete_derived referenced
            (record done { deleted = suc done.deleted; bytes = done.bytes + length o.content }) os

  -- What Collect does once it has the listing.
  unfoldable pub sweep : List Bytes → ℤ → ℤ → List Object → Action World Collected
  unfolding is_old is_scanned is_orphan is_derived keys_of trash_orphans delete_derived
  sweep referenced moment age listing =
      let seen = where_ is_scanned listing in
      let aged = where_ (is_old moment age) seen in
      let orphans = where_ (is_orphan referenced) aged in
      demand (is_nil seen || not (is_nil referenced)) empty_index
      >> trash_orphans orphans
      >> delete_derived (referenced ++ keys_of orphans)
          (record { scanned = length seen; deleted = 0; trashed = length orphans; bytes = 0 })
          (where_ is_derived aged)

  -- Collect
  unfoldable pub collect : ℤ → Action World Collected
  unfolding sweep
  collect age = alone (blob_keys env) >>= λ live. alone (trash_keys env) >>= λ trashed.
      gets (λ w. env.clock w.tick) >>= λ moment.
      store_list env [] >>= λ listing. sweep (live ++ trashed) moment age listing
