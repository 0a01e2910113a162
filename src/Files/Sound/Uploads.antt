-- ===== src/Files/Sound/Uploads.antt =====
-- The operations of internal/files/upload.go keep the rule of the file layer, whatever fails.
use stratus_backend.Prelude.{
  ℕ, suc, ◌≡◌, sym, subst, false, [], Option, none, some, arith, length, ◌==◌,
}
use stratus_backend.Prelude.Int.{ℤ}
use stratus_backend.Prelude.Text.{Bytes, has_prefix}
use stratus_backend.Prelude.Result.{Result, ok, err}
use stratus_backend.Db.Path.{validate_path}
use stratus_backend.Files.World.{Env, Upload, Object, Part, World, FilesFault, kind_other}
use stratus_backend.Files.Action.{Session, alone}
use stratus_backend.Files.Key.{derived_prefix}
use stratus_backend.Files.Repo.{or_not_found}
use stratus_backend.Files.Repo.Uploads.{put_upload, upload_by_id, delete_upload, expired_uploads}
use stratus_backend.Files.Store.{
  store_get, store_start, store_append, appended, store_abort, start_part, abort_part, grow_part,
  or_missing,
}
use stratus_backend.Files.Upload.{begun, begin_upload, saved, passed_on, append_upload}
use stratus_backend.Files.Rules.{
  Runs, Runs-pure, Runs-raise, Runs-gets, Runs-bind, Runs-demand, Runs-change, Runs-post, Runs-fact,
  Runs-try, Caught, Post-if,
}
use stratus_backend.Files.Rules.Calls.{Runs-tx, Runs-store_read, Runs-store_call, About, Known}
use stratus_backend.Files.Held.{At, Any, Runs-valid}
use stratus_backend.Files.Held.Tree.{IsLess, Runs-require_parent}
use stratus_backend.Files.Sound.{IsSound, IsNew}
use stratus_backend.Files.Sound.Stored.{started-extend}
use stratus_backend.Files.Sound.Blobs.{IsSound-abort, IsSound-start, new_blob_key-original}
use stratus_backend.Files.Sound.Calls.{Sound, Fresh}
use stratus_backend.Files.Sound.Writes.{IsLess-refl, IsLess-statement, Sound-alone}

-- A caught answer, when the rule holds either way.
pub either-Sound :
    {A : Type 0} (r : Result FilesFault A) (w : World) → Caught (λ _. Sound) Sound r w → Sound w
either-Sound (ok a) w p = p
either-Sound (err e) w p = p

module _ (env : Env) where
  Runs-put_upload : (u : Upload) → Runs Sound (alone (put_upload env u)) (λ _. Sound) Sound
  unfolding put_upload
  Runs-put_upload u = Sound-alone env _ (λ t.
      Runs-bind {R = λ _ s. IsLess t s.tables} _ _
        (Runs-bind {R = λ _. At t} _ _
          (Runs-post _ _ _ (λ _ s p. p) (λ s p. IsLess-refl t s p)
            (Runs-valid (At t) (validate_path u.path)))
          (λ _. IsLess-statement env t))
        (λ _. Runs-change (IsLess t) (IsLess t) _ _ (λ v l. l)))

  pub Runs-delete_upload :
      (owner id : Bytes) → Runs Sound (alone (delete_upload env owner id)) (λ _. Sound) Sound
  unfolding delete_upload
  Runs-delete_upload owner id = Sound-alone env _ (λ t.
      Runs-bind {R = λ _ s. IsLess t s.tables} _ _ (IsLess-statement env t)
        (λ _. Runs-change (IsLess t) (IsLess t) _ _ (λ v l. l)))

  pub Runs-upload_by_id :
      (owner id : Bytes) → Runs Sound (alone (upload_by_id env owner id)) (λ _. Sound) Sound
  unfolding upload_by_id
  Runs-upload_by_id owner id = Sound-alone env _ (λ t.
      Runs-bind {R = λ _ s. IsLess t s.tables} _ _
        (Runs-bind {R = λ _ s. IsLess t s.tables} _ _ (IsLess-statement env t)
          (λ _. Runs-gets _ (λ s p. p)))
        found)
    where
      found : {P : Session → Type 0} (r : Option Upload) → Runs P (or_not_found r) (λ _. P) P
      found none = Runs-raise _ (λ s p. p)
      found (some u) = Runs-pure u (λ s p. p)

  pub Runs-expired_uploads :
      (moment : ℤ) → Runs Sound (alone (expired_uploads env moment)) (λ _. Sound) Sound
  unfolding expired_uploads
  Runs-expired_uploads moment = Sound-alone env _ (λ t.
      Runs-bind {R = λ _ s. IsLess t s.tables} _ _ (IsLess-statement env t)
        (λ _. Runs-gets _ (λ s p. p)))

  pub Runs-store_abort : (key id : Bytes) → Runs Sound (store_abort env key id) (λ _. Sound) Sound
  unfolding store_abort abort_part
  Runs-store_abort key id =
      Runs-store_call env IsSound IsSound IsSound (abort_part key id)
        (λ w s. IsSound-abort key id w.tables w.objects w.parts s) (λ w s. s) (λ w s. s)

  Runs-begun :
      (u : Upload) (r : Result FilesFault (Unit {0}))
      → Runs Sound (begun env u r) (λ _. Sound) Sound
  unfolding begun
  Runs-begun u (ok tt) = Runs-pure u (λ w p. p)
  Runs-begun u (err e) =
      Runs-bind {R = λ _. Sound} _ _
        (Runs-post _ Sound _ either-Sound (λ w p. p)
          (Runs-try Sound _ (Runs-store_abort u.blob_key u.store_id)))
        (λ _. Runs-raise e (λ w p. p))

  Runs-store_start :
      (key : Bytes)
      → has_prefix key derived_prefix ≡ false
      → Runs
          (Known (λ t os ps. IsSound t os ps × IsNew key os ps))
          (store_start env key)
          (λ _. Sound)
          Sound
  unfolding store_start start_part
  Runs-store_start key d =
      Runs-bind {R = λ _. Known (λ t os ps. IsSound t os ps × IsNew key os ps)} _ _
        (Runs-gets _ (λ w p. p))
        (λ id.
          Runs-bind {R = λ _. Sound} _ _
            (Runs-store_call env (λ t os ps. IsSound t os ps × IsNew key os ps) IsSound IsSound
              (start_part (record { key = key; id = id; content = [] }))
              (λ w p. IsSound-start _ w.tables w.objects w.parts p.0 p.1 d) (λ w p. p.0) (λ w p. p))
            (λ _. Runs-pure id (λ w p. p)))

  pub Runs-begin_upload :
      (owner path : Bytes) (size : Option ℕ) (mime_type : Bytes)
      → Runs
          (Known (Fresh env path))
          (begin_upload env owner path size mime_type)
          (λ _. Sound)
          Sound
  unfolding begin_upload
  Runs-begin_upload owner path size mime_type =
      Runs-bind
        {R = λ key w.
          Known (λ t os ps. IsSound t os ps × IsNew key os ps) w
          × (has_prefix key derived_prefix ≡ false)}
        _ _
        (Runs-bind {R = λ _. Known (Fresh env path)} _ _
          (Runs-bind {R = λ _. Known (Fresh env path)} _ _
            (Runs-post _ Sound _ (λ _ w p. p) (λ w p. p.0)
              (Runs-valid (Known (Fresh env path)) (validate_path path)))
            (λ _.
              Runs-post _ Sound _ (λ _ w p. p) (λ w p. p.0)
                (Runs-tx env (Fresh env path) (λ _. Fresh env path) _
                  (λ w p.
                    Runs-post _ Any _
                      (λ _ s e. subst (λ u. Fresh env path u w.objects w.parts) (sym e) p)
                      (λ s e. tt) (Runs-require_parent env w.tables owner path)))))
          (λ _. Runs-gets _ (λ w p.
            ((p.0, p.1 w.tick kind_other), new_blob_key-original env w.tick path kind_other))))
        (λ key. Runs-fact _ _ (λ d.
          Runs-bind {R = λ _. Sound} _ _ (Runs-store_start key d) (λ store_id.
            Runs-bind {R = λ _. Sound} _ _ (Runs-gets _ (λ w p. p)) (λ u.
              Runs-bind {R = λ _. Sound} _ _
                (Runs-post _ Sound _ either-Sound (λ w p. p) (Runs-try Sound _ (Runs-put_upload u)))
                (Runs-begun u)))))

  Sound-grow : (key id more : Bytes) (w : World) → Sound w → Sound (grow_part key id more w)
  unfolding grow_part
  Sound-grow key id more w s = record {
    backed = s.backed;
    single = λ k.
        let a = s.single k in let b = started-extend k key id more w.parts in omega (arith, a, b);
    original = λ k d.
        let a = s.original k d in
        let b = started-extend k key id more w.parts in omega (arith, a, b);
  }

  Runs-appended :
      (key id : Bytes) (offset : ℕ) (body : Bytes) (r : Option Part)
      → Runs Sound (appended env key id offset body r) (λ _. Sound) Sound
  unfolding appended
  Runs-appended key id offset body none = record { run = λ w s. s }
  Runs-appended key id offset body (some p) = record {
    run = λ w s.
        let w' = record w { tick = suc w.tick } in
        Post-if (λ _. Sound) Sound (length p.content == offset) _ _
          (Post-if (λ _. Sound) Sound (env.fails w.tick) _ _ (Sound-grow key id _ w' s)
            (Sound-grow key id body w' s))
          s;
  }

  found_object :
      (P : About) (r : Option Object) → Runs (Known P) (or_missing r) (λ _. Known P) (Known P)
  found_object P none = Runs-raise _ (λ w p. p)
  found_object P (some o) = Runs-pure o (λ w p. p)

  pub Runs-get :
      (P : About) (key : Bytes) → Runs (Known P) (store_get env key) (λ _. Known P) (Known P)
  unfolding store_get
  Runs-get P key =
      Runs-bind {R = λ _. Known P} _ _
        (Runs-bind {R = λ _. Known P} _ _ (Runs-store_read env P) (λ _. Runs-gets _ (λ w p. p)))
        (found_object P)

  Runs-passed_on :
      {A : Type 0} (a : A) (r : Result FilesFault ℕ) → Runs Sound (passed_on a r) (λ _. Sound) Sound
  unfolding passed_on
  Runs-passed_on a (ok n) = Runs-pure a (λ w p. p)
  Runs-passed_on a (err e) = Runs-raise e (λ w p. p)

  Runs-saved :
      (u : Upload) (body : Bytes) (answer : ℕ × ℕ × Result FilesFault ℕ)
      → Runs Sound (saved env u body answer) (λ _. Sound) Sound
  unfolding saved
  Runs-saved u body (offset, count, result) =
      Runs-bind {R = λ _. Sound} _ _ (Runs-gets _ (λ w p. p))
        (λ v. Runs-bind {R = λ _. Sound} _ _ (Runs-put_upload v) (λ _. Runs-passed_on v result))

  pub Runs-append_upload :
      (owner id : Bytes) (offset : ℕ) (body : Bytes)
      → Runs Sound (append_upload env owner id offset body) (λ _. Sound) Sound
  unfolding append_upload store_append
  Runs-append_upload owner id offset body =
      Runs-bind {R = λ _. Sound} _ _ (Runs-upload_by_id owner id) (λ u.
        Runs-bind {R = λ _. Sound} _ _
          (Runs-bind {R = λ _. Sound} _ _ (Runs-demand _ _ (λ _ w p. p) (λ w p. p)) (λ _.
            Runs-bind {R = λ _. Sound} _ _ (Runs-gets _ (λ w p. p))
              (Runs-appended u.blob_key u.store_id offset body)))
          (Runs-saved u body))
