-- ===== src/Files/Upload.antt =====
-- Uploads that arrive in pieces: internal/files/upload.go.
use stratus_backend.Prelude.{
  ℕ, suc, ◌+◌, Bool, false, not, ◌&&◌, ◌||◌, ◌==◌, List, [], ◌∷◌, Option, none, some, length, take,
  if◌then◌else◌,
}
use stratus_backend.Prelude.Int.{ℤ, pos, ◌+ℤ◌}
use stratus_backend.Prelude.Text.{Bytes, codes, beq}
use stratus_backend.Prelude.Result.{Result, ok, err}
use stratus_backend.Db.Path.{validate_path}
use stratus_backend.Files.World.{
  Env, File, Upload, Object, World, FilesFault, not_found, conflict, broken, kind_other,
}
use stratus_backend.Files.Action.{
  Action, Session, ◌>>=◌, ◌>>◌, pure, raise, gets, demand, try, tx, alone,
}
use stratus_backend.Files.Key.{new_blob_key}
use stratus_backend.Files.Repo.{valid}
use stratus_backend.Files.Repo.Uploads.{put_upload, upload_by_id, delete_upload, expired_uploads}
use stratus_backend.Files.Store.{
  store_get, store_delete, store_start, store_append, store_complete, store_abort,
}
use stratus_backend.Files.Service.{
  head_size, content_type, require_parent, replace, drop_superseded, written,
}

-- DefaultUploadTTL, in milliseconds.
abbrev pub upload_ttl : ℤ
upload_ttl = pos 43200000

-- What an append has to say: the upload as it now stands.
abbrev pub advanced : Upload → ℕ → Bytes → ℤ → Upload
advanced u received digest moment = record u {
  received = received;
  digest = digest;
  expires_at = moment +ℤ upload_ttl;
}

unfoldable pub is_short : Option ℕ → ℕ → Bool
is_short none received = false
is_short (some n) received = not (received == n)

unfoldable pub passed_on : {A S : Type 0} → A → Result FilesFault ℕ → Action S A
passed_on a (ok n) = pure a
passed_on a (err e) = raise e

module _ (env : Env) where
  -- The end of BeginUpload: an upload whose row is not written is given up.
  unfoldable pub begun : Upload → Result FilesFault (Unit {0}) → Action World Upload
  begun u (ok tt) = pure u
  begun u (err e) = try (store_abort env u.blob_key u.store_id) >> raise e

  -- BeginUpload
  unfoldable pub begin_upload : Bytes → Bytes → Option ℕ → Bytes → Action World Upload
  unfolding begun
  begin_upload owner path size mime_type =
      valid (validate_path path)
      >> tx env (require_parent env owner path)
      >> gets (λ w. new_blob_key env w.tick path kind_other)
      >>= λ key. store_start env key >>= λ store_id.
          gets (λ w. record {
            id = env.random w.tick;
            owner = owner;
            path = path;
            size = size;
            received = 0;
            blob_key = key;
            store_id = store_id;
            digest = env.hash_start;
            mime_type = mime_type;
            expires_at = env.clock w.tick +ℤ upload_ttl;
          })
          >>= λ u. try (alone (put_upload env u)) >>= begun u

  -- The running hash after a piece: empty where there was none, or where the store kept less than was read.
  unfoldable pub next_digest : Upload → Bytes → ℕ → ℕ → Bytes
  next_digest u body offset count =
      if beq u.digest [] || not (offset == u.received + count)
      then []
      else env.hash_feed u.digest (take count body)

  -- The end of AppendUpload, which saves the offset also when the append failed.
  unfoldable pub saved : Upload → Bytes → ℕ × ℕ × Result FilesFault ℕ → Action World Upload
  unfolding next_digest passed_on
  saved u body (offset, count, result) =
      gets (λ w. advanced u offset (next_digest u body offset count) (env.clock w.tick)) >>= λ v.
      alone (put_upload env v) >> passed_on v result

  -- AppendUpload
  unfoldable pub append_upload : Bytes → Bytes → ℕ → Bytes → Action World Upload
  unfolding saved
  append_upload owner id offset body = alone (upload_by_id env owner id) >>= λ u.
      demand (beq u.digest [] || env.is_hash u.digest) broken
      >> store_append env u.blob_key u.store_id offset body
      >>= saved u body

  -- uploadType
  unfoldable pub sniffed_type : Upload → Result FilesFault Object → Bytes
  sniffed_type u (err e) = u.mime_type
  sniffed_type u (ok o) = content_type u.mime_type (env.sniff (take head_size o.content)).0

  unfoldable pub upload_type : Upload → Action World Bytes
  unfolding sniffed_type
  upload_type u =
      if not (beq u.mime_type []) && not (beq u.mime_type (codes "application/octet-stream"))
      then pure u.mime_type
      else try (store_get env u.blob_key) >>= λ r. pure (sniffed_type u r)

  -- uploadETag
  unfoldable pub upload_etag : Upload → Action World Bytes
  upload_etag u =
      if not (beq u.digest [])
      then demand (env.is_hash u.digest) broken >> pure (env.hash_sum u.digest)
      else store_get env u.blob_key >>= λ o.
          pure (env.hash_sum (env.hash_feed env.hash_start o.content))

  -- The end of CompleteUpload, after its transaction.
  unfoldable pub finish_upload : Bytes → Result FilesFault (File × Bytes) → Action World File
  finish_upload key (err e) = try (store_delete env key) >> raise e
  finish_upload key (ok (stored, superseded)) =
      drop_superseded env superseded >> written stored >> pure stored

  -- The transaction of CompleteUpload.
  unfoldable pub publish_upload : Bytes → Bytes → File → Action Session (File × Bytes)
  publish_upload owner id f = replace env f >>= λ answer. delete_upload env owner id >> pure answer

  -- CompleteUpload
  unfoldable pub complete_upload : Bytes → Bytes → Action World File
  unfolding is_short upload_etag upload_type publish_upload finish_upload
  complete_upload owner id = alone (upload_by_id env owner id) >>= λ u.
      demand (not (is_short u.size u.received)) conflict
      >> store_complete env u.blob_key u.store_id
      >>= λ o. upload_etag u >>= λ tag. upload_type u >>= λ mime_type.
          try (
            tx env (
              publish_upload owner id (record {
                id = 0;
                owner = owner;
                path = u.path;
                parent = [];
                blob_key = u.blob_key;
                size = length o.content;
                mtime = o.mtime;
                etag = tag;
                mime_type = mime_type;
                is_dir = false;
              })))
          >>= finish_upload u.blob_key

  -- The switch of AbortUpload on what UploadByID answers.
  unfoldable pub aborted : Bytes → Bytes → Result FilesFault Upload → Action World (Unit {0})
  aborted owner id (err not_found) = pure tt
  aborted owner id (err e) = raise e
  aborted owner id (ok u) =
      store_abort env u.blob_key u.store_id >> alone (delete_upload env owner id)

  -- AbortUpload
  unfoldable pub abort_upload : Bytes → Bytes → Action World (Unit {0})
  unfolding aborted
  abort_upload owner id = try (alone (upload_by_id env owner id)) >>= aborted owner id

  -- The loop of CollectUploads.
  unfoldable pub abort_each : ℕ → List Upload → Action World ℕ
  abort_each done [] = pure done
  abort_each done (u ∷ us) =
      store_abort env u.blob_key u.store_id
      >> alone (delete_upload env u.owner u.id)
      >> abort_each (suc done) us

  -- CollectUploads
  unfoldable pub collect_uploads : ℤ → Action World ℕ
  unfolding abort_each
  collect_uploads moment = alone (expired_uploads env moment) >>= abort_each 0
