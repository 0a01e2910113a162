-- ===== src/Files/Trash.antt =====
-- Putting back what was deleted, and destroying it: internal/files/trash.go.
use stratus_backend.Prelude.{ℕ, zero, suc, ◌+◌, List, [], ◌∷◌, ◌++◌, none, some, if◌then◌else◌}
use stratus_backend.Prelude.Int.{ℤ}
use stratus_backend.Prelude.Text.{Bytes, beq, cut_prefix}
use stratus_backend.Prelude.Result.{Result, ok, err}
use stratus_backend.Db.Path.{parent_of, max_path_len}
use stratus_backend.Files.World.{
  Env, File, Trashed, World, FilesFault, not_found, conflict, out_of_fuel,
}
use stratus_backend.Files.Action.{Action, Session, ◌>>=◌, ◌>>◌, pure, raise, demand, try, tx, alone}
use stratus_backend.Files.Repo.{put_file, create_dir, file_by_path}
use stratus_backend.Files.Repo.Trash.{trashed_in, delete_trash, expired_trash}
use stratus_backend.Files.Service.{drop_blob, written}
use stratus_backend.Files.Service.Names.{free_name}

-- strings.TrimPrefix
unfoldable pub trim_prefix : Bytes → Bytes → Bytes
trim_prefix s prefix = elim (cut_prefix s prefix) [ none ↦ s | some rest ↦ rest ]

-- The owner of each deletion: the map of EmptyTrash, where the last row of a batch stays.
unfoldable pub set_owner : Bytes → Bytes → List (Bytes × Bytes) → List (Bytes × Bytes)
set_owner batch owner [] = (batch, owner) ∷ []
set_owner batch owner ((b, o) ∷ rest) =
    let later = set_owner batch owner rest in
    if beq b batch then (batch, owner) ∷ rest else (b, o) ∷ later

unfoldable pub batches_of : List (Bytes × Bytes) → List Trashed → List (Bytes × Bytes)
unfolding set_owner
batches_of found [] = found
batches_of found (t ∷ ts) = batches_of (set_owner t.batch t.file.owner found) ts

unfoldable pub announce_all : List File → Action World (Unit {0})
unfolding written
announce_all [] = pure tt
announce_all (f ∷ fs) = written f >> announce_all fs

module _ (env : Env) where
  -- The loop of DestroyTrashed, with the files and bytes so far.
  unfoldable pub drop_rows : ℕ → ℕ → List Trashed → Action World (ℕ × ℕ)
  drop_rows files bytes [] = pure (files, bytes)
  drop_rows files bytes (t ∷ ts) =
      if t.file.is_dir
      then drop_rows files bytes ts
      else drop_blob env t.file.blob_key >> drop_rows (suc files) (bytes + t.file.size) ts

  -- The transaction of DestroyTrashed.
  unfoldable pub forget_batch : Bytes → Bytes → Action Session (List Trashed)
  forget_batch owner batch =
      trashed_in env owner batch >>= λ rows. delete_trash env owner batch >> pure rows

  -- DestroyTrashed
  unfoldable pub destroy_trashed : Bytes → Bytes → Action World (ℕ × ℕ)
  unfolding forget_batch drop_rows
  destroy_trashed owner batch = tx env (forget_batch owner batch) >>= drop_rows 0 0

  -- The loop of EmptyTrash, in the order that the map was made; Go's is any.
  unfoldable pub destroy_each : List (Bytes × Bytes) → Action World (Unit {0})
  unfolding destroy_trashed
  destroy_each [] = pure tt
  destroy_each ((batch, owner) ∷ rest) = destroy_trashed owner batch >> destroy_each rest

  -- EmptyTrash, without the counts that it answers with.
  unfoldable pub empty_trash : ℤ → Action World (Unit {0})
  unfolding batches_of destroy_each
  empty_trash before = alone (expired_trash env before) >>= λ ts. destroy_each (batches_of [] ts)

  -- The switch of restoreParents, given what makes the directories above.
  unfoldable pub parent_made :
      Bytes → Bytes → Action Session (Unit {0}) → Result FilesFault File → Action Session (Unit {0})
  parent_made owner parent above (ok f) = demand f.is_dir conflict
  parent_made owner parent above (err not_found) = above >> create_dir env owner parent >> pure tt
  parent_made owner parent above (err e) = raise e

  -- restoreParents
  unfoldable pub restore_parents : ℕ → Bytes → Bytes → Action Session (Unit {0})
  unfolding parent_made
  restore_parents zero owner target = raise out_of_fuel
  restore_parents (suc fuel) owner target =
      if beq (parent_of target) []
      then pure tt
      else try (file_by_path env owner (parent_of target))
        >>= parent_made owner (parent_of target) (restore_parents fuel owner (parent_of target))

  -- The loop of Restore: the rows of the files it has put back.
  unfoldable pub put_back : Bytes → Bytes → Bytes → List Trashed → Action Session (List File)
  unfolding trim_prefix
  put_back owner from to [] = pure []
  put_back owner from to (t ∷ ts) =
      (if t.file.is_dir
        then create_dir env owner (to ++ trim_prefix t.file.path from) >> pure []
        else put_file env (record t.file { id = 0; path = to ++ trim_prefix t.file.path from })
          >>= λ f. pure (f ∷ []))
      >>= λ head. put_back owner from to ts >>= λ rest. pure (head ++ rest)

  -- The transaction of Restore, on the rows of the deletion.
  unfoldable pub restored : Bytes → Bytes → List Trashed → Action Session (File × List File)
  unfolding restore_parents put_back
  restored owner batch [] = raise not_found
  restored owner batch (t ∷ ts) = free_name (file_by_path env owner) t.file.path >>= λ to.
      restore_parents (suc max_path_len) owner to
      >> put_back owner t.file.path to (t ∷ ts)
      >>= λ files.
          file_by_path env owner to >>= λ root. delete_trash env owner batch >> pure (root, files)

  -- Restore
  unfoldable pub restore : Bytes → Bytes → Action World File
  unfolding restored announce_all
  restore owner batch =
      if beq owner []
      then raise conflict
      else tx env (trashed_in env owner batch >>= restored owner batch) >>= λ answer.
          announce_all answer.1 >> pure answer.0
