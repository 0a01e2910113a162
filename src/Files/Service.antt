-- ===== src/Files/Service.antt =====
-- The operations that write, move and remove files: internal/files/files.go.
pub mod Names
use stratus_backend.Prelude.{
  ℕ, zero, suc, Bool, true, false, not, ◌&&◌, ◌||◌, List, [], ◌∷◌, ◌++◌, Option, none, some, length,
  take, if◌then◌else◌,
}
use stratus_backend.Prelude.Text.{Bytes, codes, beq}
use stratus_backend.Prelude.Result.{Result, ok, err}
use stratus_backend.Db.Path.{validate_path, parent_of, max_path_len}
use stratus_backend.Files.World.{
  Env, File, Object, Kind, World, FilesFault, not_found, conflict, out_of_fuel, digest,
}
use stratus_backend.Files.Action.{
  Action, Session, ◌>>=◌, ◌>>◌, pure, raise, gets, demand, try, tx, alone, store_read,
}
use stratus_backend.Files.Key.{new_blob_key, derived_prefix}
use stratus_backend.Files.Repo.{
  valid, put_file, create_dir, file_by_path, list_files, move_file, delete_file,
}
use stratus_backend.Files.Repo.Trash.{trash_rows}
use stratus_backend.Files.Store.{store_put, store_delete, store_list}

abbrev pub head_size : ℕ
head_size = 512

-- contentType
unfoldable pub content_type : Bytes → Bytes → Bytes
content_type declared sniffed =
    if beq sniffed []
    then declared
    else if beq declared [] || beq declared (codes "application/octet-stream")
    then sniffed
    else declared

-- written
unfoldable pub written : File → Action World (Unit {0})
written f w = (record w { announced = w.announced ++ f ∷ [] }, ok tt)

-- The switch of replace: the blob of the row at the path, if there is one.
unfoldable pub displaced : Result FilesFault File → Action Session Bytes
displaced (ok old) = pure (if old.is_dir then [] else old.blob_key)
displaced (err not_found) = pure []
displaced (err e) = raise e

-- The loop of removeTree over the children of a directory.
unfoldable pub remove_each :
    (Bytes → Action Session (List File)) → List File → Action Session (List File)
remove_each remove [] = pure []
remove_each remove (child ∷ children) =
    remove child.path >>= λ under. remove_each remove children >>= λ rows. pure (under ++ rows)

module _ (env : Env) where
  -- requireParent
  unfoldable pub require_parent : Bytes → Bytes → Action Session (Unit {0})
  require_parent owner path =
      if beq (parent_of path) []
      then pure tt
      else file_by_path env owner (parent_of path) >>= λ f. demand f.is_dir conflict

  -- replace
  unfoldable pub replace : File → Action Session (File × Bytes)
  unfolding require_parent displaced
  replace f =
      require_parent f.owner f.path
      >> try (file_by_path env f.owner f.path)
      >>= displaced
      >>= λ superseded. put_file env f >>= λ stored. pure (stored, superseded)

  -- The loop of dropBlob.
  unfoldable pub delete_listed : List Object → Action World (Unit {0})
  delete_listed [] = pure tt
  delete_listed (o ∷ os) = store_delete env o.key >> store_read env >> delete_listed os

  -- dropBlob
  unfoldable pub drop_blob : Bytes → Action World (Unit {0})
  unfolding delete_listed
  drop_blob key =
      store_delete env key
      >> store_list env (derived_prefix ++ (key ++ codes "/"))
      >>= delete_listed

  -- drop
  unfoldable pub drop_superseded : Bytes → Action World (Unit {0})
  unfolding drop_blob
  drop_superseded key = if beq key [] then pure tt else try (drop_blob key) >> pure tt

  -- storeBlob: the first call is the read of the head, and the rest is read by the call of the store.
  unfoldable pub store_blob : Bytes → Bytes → Bytes → Option ℕ → Bytes → Action World File
  unfolding content_type
  store_blob owner path body size mime_type =
      valid (validate_path path)
      >> store_read env
      >> gets (λ w. new_blob_key env w.tick path (env.sniff (take head_size body)).1)
      >>= λ key. store_put env key body size >>= λ o. pure (record {
        id = 0;
        owner = owner;
        path = path;
        parent = [];
        blob_key = key;
        size = length o.content;
        mtime = o.mtime;
        etag = digest env body;
        mime_type = content_type mime_type (env.sniff (take head_size body)).0;
        is_dir = false;
      })

  -- The end of write, after its transaction.
  unfoldable pub finish_write : Bytes → Result FilesFault (File × Bytes) → Action World File
  unfolding drop_superseded
  finish_write key (err e) = try (store_delete env key) >> raise e
  finish_write key (ok (stored, superseded)) = drop_superseded superseded >> pure stored

  -- write, which Reserve is for an empty body.
  unfoldable pub write_file : Bytes → Bytes → Bytes → Option ℕ → Bytes → Action World File
  unfolding store_blob replace finish_write
  write_file owner path body size mime_type = store_blob owner path body size mime_type >>= λ f.
      try (tx env (replace f)) >>= finish_write f.blob_key

  -- Write
  unfoldable pub write : Bytes → Bytes → Bytes → Option ℕ → Bytes → Action World File
  unfolding write_file written
  write owner path body size mime_type =
      write_file owner path body size mime_type >>= λ f. written f >> pure f

  -- Reserve
  unfoldable pub reserve_file : Bytes → Bytes → Bytes → Action World File
  unfolding write_file
  reserve_file owner path mime_type = write_file owner path [] (some 0) mime_type

  -- Mkdir
  unfoldable pub mkdir : Bytes → Bytes → Action World File
  unfolding require_parent
  mkdir owner path =
      valid (validate_path path) >> tx env (require_parent owner path >> create_dir env owner path)

  -- Move
  unfoldable pub move : Bytes → Bytes → Bytes → Action World (Unit {0})
  unfolding require_parent
  move owner from to = tx env (require_parent owner to >> move_file env owner from to)

  -- removeTree
  unfoldable pub remove_tree : ℕ → Bytes → Bytes → Action Session (List File)
  unfolding remove_each
  remove_tree zero owner path = raise out_of_fuel
  remove_tree (suc fuel) owner path = file_by_path env owner path >>= λ f.
      (if f.is_dir
        then list_files env owner path >>= remove_each (remove_tree fuel owner)
        else pure [])
      >>= λ rows. delete_file env owner path >> pure (rows ++ f ∷ [])

  -- Remove
  unfoldable pub remove : Bytes → Bytes → Action World (Unit {0})
  unfolding remove_tree
  remove owner path = gets (λ w. env.random w.tick) >>= λ batch. tx env (
      remove_tree (suc max_path_len) owner path >>= λ rows.
      gets (λ s. env.clock s.tick) >>= λ deleted_at. trash_rows env batch rows deleted_at)
