-- ===== src/Files/Repo/Uploads.antt =====
-- The table of uploads in progress: the methods of db.Uploads in internal/db/sqlite/sqlite.go.
use stratus_backend.Prelude.{Bool, not, ◌&&◌, List, [], ◌∷◌, Option, none, some, if◌then◌else◌}
use stratus_backend.Prelude.Int.{ℤ, leb_ℤ, ltb_ℤ}
use stratus_backend.Prelude.Text.{Bytes, beq}
use stratus_backend.Db.Path.{validate_path}
use stratus_backend.Files.World.{Env, Upload}
use stratus_backend.Files.Action.{Action, Session, ◌>>=◌, ◌>>◌, gets, statement, change_tables}
use stratus_backend.Files.Repo.{where_, order_by, valid, or_not_found}

-- ON CONFLICT (id) DO UPDATE: only what an append changes.
unfoldable pub upsert_upload : Upload → List Upload → List Upload
upsert_upload u [] = u ∷ []
upsert_upload u (old ∷ us) =
    let rest = upsert_upload u us in
    if beq old.id u.id
    then record old { received = u.received; digest = u.digest; expires_at = u.expires_at } ∷ us
    else old ∷ rest

abbrev pub is_upload : Bytes → Bytes → Upload → Bool
is_upload owner id u = beq u.id id && beq u.owner owner

unfoldable pub find_upload : Bytes → Bytes → List Upload → Option Upload
find_upload owner id [] = none
find_upload owner id (u ∷ us) =
    let rest = find_upload owner id us in if is_upload owner id u then some u else rest

module _ (env : Env) where
  -- PutUpload
  unfoldable pub put_upload : Upload → Action Session (Unit {0})
  unfolding upsert_upload
  put_upload u =
      valid (validate_path u.path)
      >> statement env
      >> change_tables (λ t. record t { uploads = upsert_upload u t.uploads })

  -- UploadByID
  unfoldable pub upload_by_id : Bytes → Bytes → Action Session Upload
  unfolding find_upload
  upload_by_id owner id =
      statement env >> gets (λ s. find_upload owner id s.tables.uploads) >>= or_not_found

  -- DeleteUpload
  unfoldable pub delete_upload : Bytes → Bytes → Action Session (Unit {0})
  delete_upload owner id =
      statement env
      >> change_tables
          (λ t. record t { uploads = where_ (λ u. not (is_upload owner id u)) t.uploads })

  -- ExpiredUploads
  unfoldable pub expired_uploads : ℤ → Action Session (List Upload)
  expired_uploads moment =
      statement env
      >> gets (λ s.
        order_by (λ u v. ltb_ℤ u.expires_at v.expires_at)
          (where_ (λ u. leb_ℤ u.expires_at moment) s.tables.uploads))
