-- ===== src/Files/Repo/Trash.antt =====
-- The table of what has been deleted: internal/db/sqlite/trash.go.
use stratus_backend.Prelude.{Bool, not, ◌&&◌, List, [], ◌∷◌, ◌++◌, map}
use stratus_backend.Prelude.Int.{ℤ, leb_ℤ, ltb_ℤ}
use stratus_backend.Prelude.Text.{Bytes, beq}
use stratus_backend.Db.Path.Subtree.{lex_ltb}
use stratus_backend.Files.World.{Env, File, Trashed}
use stratus_backend.Files.Action.{Action, Session, ◌>>◌, pure, gets, statement, change_tables}
use stratus_backend.Files.Repo.{where_, order_by}

abbrev pub in_batch : Bytes → Bytes → Trashed → Bool
in_batch owner batch t = beq t.file.owner owner && beq t.batch batch

-- ORDER BY path, and ORDER BY deleted_at
abbrev pub by_path : Trashed → Trashed → Bool
by_path t u = lex_ltb t.file.path u.file.path

abbrev pub by_deletion : Trashed → Trashed → Bool
by_deletion t u = ltb_ℤ t.deleted_at u.deleted_at

module _ (env : Env) where
  -- Trash
  unfoldable pub trash_rows : Bytes → List File → ℤ → Action Session (Unit {0})
  trash_rows batch [] deleted_at = pure tt
  trash_rows batch (f ∷ fs) deleted_at =
      statement env
      >> change_tables (λ t. record t {
        trash = t.trash ++ (record { batch = batch; file = f; deleted_at = deleted_at }) ∷ [];
      })
      >> trash_rows batch fs deleted_at

  -- TrashedIn
  unfoldable pub trashed_in : Bytes → Bytes → Action Session (List Trashed)
  trashed_in owner batch =
      statement env >> gets (λ s. order_by by_path (where_ (in_batch owner batch) s.tables.trash))

  -- DeleteTrash
  unfoldable pub delete_trash : Bytes → Bytes → Action Session (Unit {0})
  delete_trash owner batch =
      statement env
      >> change_tables
          (λ t. record t { trash = where_ (λ u. not (in_batch owner batch u)) t.trash })

  -- TrashKeys
  unfoldable pub trash_keys : Action Session (List Bytes)
  trash_keys =
      statement env
      >> gets (λ s. map (λ t. t.file.blob_key) (where_ (λ t. not t.file.is_dir) s.tables.trash))

  -- ExpiredTrash
  unfoldable pub expired_trash : ℤ → Action Session (List Trashed)
  expired_trash before =
      statement env
      >> gets (λ s. order_by by_deletion (where_ (λ t. leb_ℤ t.deleted_at before) s.tables.trash))
