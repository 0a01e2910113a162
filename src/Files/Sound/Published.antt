-- ===== src/Files/Sound/Published.antt =====
-- The end of an upload, CompleteUpload, AbortUpload and CollectUploads of internal/files/upload.go, keeps
-- the rule of the file layer, whatever fails.
use stratus_backend.Prelude.{ℕ, suc, not, ◌&&◌, List, [], ◌∷◌}
use stratus_backend.Prelude.Int.{ℤ}
use stratus_backend.Prelude.Text.{Bytes, codes, beq}
use stratus_backend.Prelude.Result.{Result, ok, err}
use stratus_backend.Files.World.{
  Env, File, Upload, Object, World, FilesFault, not_found, conflict, invalid_path, broken,
  size_mismatch, upload_offset, empty_index, no_space, out_of_fuel,
}
use stratus_backend.Files.Action.{◌>>=◌, ◌>>◌, pure, demand, try, tx}
use stratus_backend.Files.Repo.Uploads.{delete_upload}
use stratus_backend.Files.Store.{store_get}
use stratus_backend.Files.Upload.{
  upload_type, upload_etag, sniffed_type, finish_upload, publish_upload, complete_upload, aborted,
  abort_upload, abort_each, collect_uploads,
}
use stratus_backend.Files.Rules.{
  Runs, Runs-pure, Runs-raise, Runs-if, Runs-bind, Runs-demand, Runs-statement, Runs-change,
  Runs-post, Runs-try, Caught,
}
use stratus_backend.Files.Rules.Calls.{Runs-tx, About, Known}
use stratus_backend.Files.Held.{Any}
use stratus_backend.Files.Held.Tree.{Replaces, Runs-replace}
use stratus_backend.Files.Sound.Blobs.{IsPlaced, placed-replace}
use stratus_backend.Files.Sound.Calls.{Sound, Superseded, Runs-drop_superseded, Runs-store_complete}
use stratus_backend.Files.Sound.Writes.{Replaced, Runs-give_up, Runs-written}
use stratus_backend.Files.Sound.Uploads.{
  either-Sound, Runs-upload_by_id, Runs-delete_upload, Runs-store_abort, Runs-expired_uploads,
  Runs-get,
}

module _ (env : Env) where
  Runs-upload_type :
      (u : Upload) (P : About) → Runs (Known P) (upload_type env u) (λ _. Known P) (Known P)
  unfolding upload_type
  Runs-upload_type u P =
      Runs-if (not (beq u.mime_type []) && not (beq u.mime_type (codes "application/octet-stream")))
        (pure u.mime_type) (try (store_get env u.blob_key) >>= λ r. pure (sniffed_type env u r))
        (λ _. Runs-pure _ (λ w p. p))
        (λ _.
          Runs-bind {R = λ _. Known P} _ _
            (Runs-post _ _ _ either_known (λ w p. p)
              (Runs-try (Known P) _ (Runs-get env P u.blob_key)))
            (λ r. Runs-pure _ (λ w p. p)))
    where
      either_known :
          (r : Result FilesFault Object) (w : World)
          → Caught (λ _. Known P) (Known P) r w
          → Known P w
      either_known (ok a) w p = p
      either_known (err e) w p = p

  Runs-upload_etag :
      (u : Upload) (P : About) → Runs (Known P) (upload_etag env u) (λ _. Known P) (Known P)
  unfolding upload_etag
  Runs-upload_etag u P =
      Runs-if (not (beq u.digest []))
        (demand (env.is_hash u.digest) broken >> pure (env.hash_sum u.digest))
        (store_get env u.blob_key >>= λ o.
          pure (env.hash_sum (env.hash_feed env.hash_start o.content)))
        (λ _.
          Runs-bind {R = λ _. Known P} _ _ (Runs-demand _ _ (λ _ w p. p) (λ w p. p))
            (λ _. Runs-pure _ (λ w p. p)))
        (λ _.
          Runs-bind {R = λ _. Known P} _ _ (Runs-get env P u.blob_key)
            (λ o. Runs-pure _ (λ w p. p)))

  Runs-finish_upload :
      (key : Bytes) (r : Result FilesFault (File × Bytes))
      → Runs (Replaced key r) (finish_upload env key r) (λ _. Sound) Sound
  unfolding finish_upload
  Runs-finish_upload key (err e) = Runs-give_up env key e
  Runs-finish_upload key (ok (stored, superseded)) =
      Runs-bind {R = λ _. Sound} _ _
        (Runs-bind {R = λ _. Sound} _ _ (Runs-drop_superseded env superseded)
          (λ _. Runs-written env stored))
        (λ _. Runs-pure _ (λ w p. p))

  Runs-publishing :
      (owner id : Bytes) (f : File)
      → Runs
          (Known (IsPlaced f.blob_key))
          (try (tx env (publish_upload env owner id f)))
          (Replaced f.blob_key)
          Sound
  unfolding publish_upload delete_upload
  Runs-publishing owner id f = Runs-try Sound _ (
      Runs-tx env (IsPlaced f.blob_key) (λ answer. Superseded answer.1) _
        (λ w p.
          Runs-post _ _ _
            (λ answer s r. placed-replace f answer.1 w.tables s.tables w.objects w.parts p r)
            (λ s r. r)
            (Runs-bind _ _ (Runs-replace env w.tables f) (λ answer.
              Runs-bind {R = λ _ s. Replaces f answer.1 w.tables s.tables} _ _
                (Runs-bind {R = λ _ s. Replaces f answer.1 w.tables s.tables} _ _
                  (Runs-post _ Any _ (λ _ s r. r) (λ s r. tt)
                    (Runs-statement env (Replaces f answer.1 w.tables)))
                  (λ _.
                    Runs-change (Replaces f answer.1 w.tables) (Replaces f answer.1 w.tables) _ _
                      (λ v r. r)))
                (λ _. Runs-pure answer (λ s r. r))))))

  pub Runs-complete_upload :
      (owner id : Bytes) → Runs Sound (complete_upload env owner id) (λ _. Sound) Sound
  unfolding complete_upload
  Runs-complete_upload owner id =
      Runs-bind {R = λ _. Sound} _ _ (Runs-upload_by_id env owner id) (λ u.
        Runs-bind {R = λ _. Known (IsPlaced u.blob_key)} _ _
          (Runs-bind {R = λ _. Sound} _ _ (Runs-demand _ _ (λ _ w p. p) (λ w p. p))
            (λ _. Runs-store_complete env u.blob_key u.store_id))
          (λ o.
            Runs-bind {R = λ _. Known (IsPlaced u.blob_key)} _ _
              (Runs-post _ _ _ (λ _ w p. p) (λ w p. p.sound)
                (Runs-upload_etag u (IsPlaced u.blob_key)))
              (λ tag.
                Runs-bind {R = λ _. Known (IsPlaced u.blob_key)} _ _
                  (Runs-post _ _ _ (λ _ w p. p) (λ w p. p.sound)
                    (Runs-upload_type u (IsPlaced u.blob_key)))
                  (λ mime_type.
                    Runs-bind _ _ (Runs-publishing owner id _) (Runs-finish_upload u.blob_key)))))

  Runs-aborted :
      (owner id : Bytes) (r : Result FilesFault Upload)
      → Runs Sound (aborted env owner id r) (λ _. Sound) Sound
  unfolding aborted
  Runs-aborted owner id (ok u) =
      Runs-bind {R = λ _. Sound} _ _ (Runs-store_abort env u.blob_key u.store_id)
        (λ _. Runs-delete_upload env owner id)
  Runs-aborted owner id (err not_found) = Runs-pure _ (λ w p. p)
  Runs-aborted owner id (err conflict) = Runs-raise _ (λ w p. p)
  Runs-aborted owner id (err invalid_path) = Runs-raise _ (λ w p. p)
  Runs-aborted owner id (err broken) = Runs-raise _ (λ w p. p)
  Runs-aborted owner id (err size_mismatch) = Runs-raise _ (λ w p. p)
  Runs-aborted owner id (err upload_offset) = Runs-raise _ (λ w p. p)
  Runs-aborted owner id (err empty_index) = Runs-raise _ (λ w p. p)
  Runs-aborted owner id (err no_space) = Runs-raise _ (λ w p. p)
  Runs-aborted owner id (err out_of_fuel) = Runs-raise _ (λ w p. p)

  pub Runs-abort_upload :
      (owner id : Bytes) → Runs Sound (abort_upload env owner id) (λ _. Sound) Sound
  unfolding abort_upload
  Runs-abort_upload owner id =
      Runs-bind {R = λ _. Sound} _ _
        (Runs-post _ Sound _ either-Sound (λ w p. p)
          (Runs-try Sound _ (Runs-upload_by_id env owner id)))
        (Runs-aborted owner id)

  Runs-abort_each :
      (done : ℕ) (us : List Upload) → Runs Sound (abort_each env done us) (λ _. Sound) Sound
  unfolding abort_each
  Runs-abort_each done [] = Runs-pure _ (λ w p. p)
  Runs-abort_each done (u ∷ us) =
      Runs-bind {R = λ _. Sound} _ _
        (Runs-bind {R = λ _. Sound} _ _ (Runs-store_abort env u.blob_key u.store_id)
          (λ _. Runs-delete_upload env u.owner u.id))
        (λ _. Runs-abort_each (suc done) us)

  pub Runs-collect_uploads :
      (moment : ℤ) → Runs Sound (collect_uploads env moment) (λ _. Sound) Sound
  unfolding collect_uploads
  Runs-collect_uploads moment =
      Runs-bind {R = λ _. Sound} _ _ (Runs-expired_uploads env moment) (Runs-abort_each 0)
