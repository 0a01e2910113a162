-- ===== src/Files/Sound/Calls.antt =====
-- What the parts that the operations share do to the rule of the file layer.
use stratus_backend.Prelude.{
  ℕ, ◌≡◌, refl, sym, subst, true, false, List, [], ◌∷◌, ◌++◌, Option, none, some, inl, inr,
  Bool-cases, arith, All,
}
use stratus_backend.Prelude.Text.{Bytes, codes, beq, has_prefix, cut_prefix}
use stratus_backend.Prelude.Result.{Result, ok, err}
use stratus_backend.Db.Path.{validate_path}
use stratus_backend.Files.World.{Env, Object, Part, Tables, World, FilesFault, Kind}
use stratus_backend.Files.Action.{◌>>◌, pure, try}
use stratus_backend.Files.Key.{new_blob_key, derived_prefix}
use stratus_backend.Files.Repo.{where_}
use stratus_backend.Files.Store.{
  store_put, store_delete, store_list, store_complete, without_object, put_object, delete_object,
  publish_part, find_part, or_missing, abort_part,
}
use stratus_backend.Files.Service.{delete_listed, drop_blob, drop_superseded, store_blob}
use stratus_backend.Files.Rules.{
  Runs, Runs-pure, Runs-raise, Runs-gets, Runs-if, Runs-bind, Runs-demand, Runs-post, Runs-pre,
  Runs-fact, Runs-try, Caught,
}
use stratus_backend.Files.Rules.Calls.{Runs-store_read, Runs-store_call, About, Known}
use stratus_backend.Files.Count.{held}
use stratus_backend.Files.Held.{Runs-valid}
use stratus_backend.Files.Sound.{IsSound, IsNew}
use stratus_backend.Files.Sound.Blobs.{
  IsPlaced, IsSound-delete, IsPlaced-put, IsPlaced-publish, new_blob_key-original,
}

-- Sound, and no row names the blob.
abbrev pub Unnamed : Bytes → About
Unnamed key t os ps = IsSound t os ps × (held key t ≡ 0)

-- Sound, and no row names what a write took the place of.
abbrev pub Superseded : Bytes → About
Superseded key t os ps = IsSound t os ps × (beq key [] ≡ false → held key t ≡ 0)

-- Sound, and the keys that may be drawn for the file are new.
abbrev pub Fresh : Env → Bytes → About
Fresh env path t os ps =
    IsSound t os ps × ((moment : ℕ) (kind : Kind) → IsNew (new_blob_key env moment path kind) os ps)

-- An object that was derived from another.
unfoldable pub IsDerived : Object → Type 0
IsDerived o = has_prefix o.key derived_prefix ≡ true

has_prefix-append : (s p q : Bytes) → has_prefix s (p ++ q) ≡ true → has_prefix s p ≡ true
unfolding cut_prefix
has_prefix-append s [] q h = refl
has_prefix-append [] (c ∷ p) q h = h
has_prefix-append (d ∷ s) (c ∷ p) q h = ground (arith, h, has_prefix-append s p q)

pub where_-IsDerived :
    (rest : Bytes) (os : List Object)
    → All IsDerived (where_ (λ o. has_prefix o.key (derived_prefix ++ rest)) os)
unfolding where_ IsDerived
where_-IsDerived rest [] = tt
where_-IsDerived rest (o ∷ os) = elim (Bool-cases (has_prefix o.key (derived_prefix ++ rest))) [
  | inl e ↦ rw e (has_prefix-append o.key derived_prefix rest e, where_-IsDerived rest os)
  | inr e ↦ rw e (where_-IsDerived rest os)
]

abbrev pub Sound : World → Type 0
Sound = Known IsSound

module _ (env : Env) where
  pub Runs-store_delete :
      (key : Bytes)
      → Runs (Known (Unnamed key)) (store_delete env key) (λ _. Known (Unnamed key)) Sound
  unfolding store_delete delete_object
  Runs-store_delete key =
      Runs-store_call env (Unnamed key) (Unnamed key) IsSound (delete_object key)
        (λ w p. (IsSound-delete key _ _ _ p.0 p.1, p.1)) (λ w p. p.0) (λ w p. p.0)

  pub Runs-delete-Sound :
      (key : Bytes) → Runs (Known (Unnamed key)) (store_delete env key) (λ _. Sound) Sound
  Runs-delete-Sound key = Runs-post _ _ _ (λ _ w p. p.0) (λ w p. p) (Runs-store_delete key)

  Runs-delete_listed :
      (os : List Object) → All IsDerived os → Runs Sound (delete_listed env os) (λ _. Sound) Sound
  unfolding delete_listed IsDerived
  Runs-delete_listed [] h = Runs-pure _ (λ w p. p)
  Runs-delete_listed (o ∷ os) h =
      Runs-bind {R = λ _. Sound} _ _
        (Runs-bind {R = λ _. Sound} _ _
          (Runs-pre Sound _ (λ w s. (s, let a = s.original o.key h.0 in omega (arith, a)))
            (Runs-delete-Sound o.key))
          (λ _. Runs-store_read env IsSound))
        (λ _. Runs-delete_listed os h.1)

  -- A blob that no row names is dropped, with what was derived from it.
  pub Runs-drop_blob :
      (key : Bytes) → Runs (Known (Unnamed key)) (drop_blob env key) (λ _. Sound) Sound
  unfolding drop_blob store_list
  Runs-drop_blob key =
      Runs-bind {R = λ listing w. Sound w × All IsDerived listing} _ _
        (Runs-bind {R = λ _. Sound} _ _ (Runs-delete-Sound key) (λ _.
          Runs-bind {R = λ _. Sound} _ _ (Runs-store_read env IsSound)
            (λ _. Runs-gets _ (λ w p. (p, where_-IsDerived (key ++ codes "/") w.objects)))))
        (λ listing. Runs-fact _ _ (λ derived. Runs-delete_listed listing derived))

  keeps_delete :
      (P : Tables → Type 0) (key : Bytes)
      → Runs (λ w. P w.tables) (store_delete env key) (λ _ w. P w.tables) (λ w. P w.tables)
  unfolding store_delete delete_object
  keeps_delete P key =
      Runs-store_call env (λ t _ _. P t) (λ t _ _. P t) (λ t _ _. P t) (delete_object key)
        (λ w p. p) (λ w p. p) (λ w p. p)

  keeps_delete_listed :
      (P : Tables → Type 0) (os : List Object)
      → Runs (λ w. P w.tables) (delete_listed env os) (λ _ w. P w.tables) (λ w. P w.tables)
  unfolding delete_listed
  keeps_delete_listed P [] = Runs-pure _ (λ w p. p)
  keeps_delete_listed P (o ∷ os) =
      Runs-bind {R = λ _ w. P w.tables} _ _
        (Runs-bind {R = λ _ w. P w.tables} _ _ (keeps_delete P o.key)
          (λ _. Runs-store_read env (λ t _ _. P t)))
        (λ _. keeps_delete_listed P os)

  -- Dropping a blob changes no table.
  pub keeps_drop_blob :
      (P : Tables → Type 0) (key : Bytes)
      → Runs (λ w. P w.tables) (drop_blob env key) (λ _ w. P w.tables) (λ w. P w.tables)
  unfolding drop_blob store_list
  keeps_drop_blob P key =
      Runs-bind {R = λ _ w. P w.tables} _ _
        (Runs-bind {R = λ _ w. P w.tables} _ _ (keeps_delete P key) (λ _.
          Runs-bind {R = λ _ w. P w.tables} _ _ (Runs-store_read env (λ t _ _. P t))
            (λ _. Runs-gets _ (λ w p. p))))
        (keeps_delete_listed P)

  pub Runs-drop_superseded :
      (key : Bytes) → Runs (Known (Superseded key)) (drop_superseded env key) (λ _. Sound) Sound
  unfolding drop_superseded
  Runs-drop_superseded key =
      Runs-if (beq key []) (pure tt) (try (drop_blob env key) >> pure tt)
        (λ _. Runs-pure _ (λ w p. p.0))
        (λ e.
          Runs-pre _ _ (λ w p. (p.0, p.1 e))
            (Runs-bind {R = λ _. Sound} _ _
              (Runs-post _ _ _ (λ r w p. either-Sound r w p) (λ w p. p)
                (Runs-try Sound _ (Runs-drop_blob key)))
              (λ _. Runs-pure _ (λ w p. p))))
    where
      either-Sound :
          (r : Result FilesFault (Unit {0})) (w : World) → Caught (λ _. Sound) Sound r w → Sound w
      either-Sound (ok a) w p = p
      either-Sound (err e) w p = p

  -- A new blob is put, and no row names it yet.
  pub Runs-store_put :
      (key body : Bytes) (size : Option ℕ)
      → has_prefix key derived_prefix ≡ false
      → Runs
          (Known (λ t os ps. IsSound t os ps × IsNew key os ps))
          (store_put env key body size)
          (λ _. Known (IsPlaced key))
          Sound
  unfolding store_put put_object
  Runs-store_put key body size d =
      Runs-bind {R = λ o w. Known (λ t os ps. IsSound t os ps × IsNew key os ps) w × (o.key ≡ key)}
        _ _
        (Runs-bind {R = λ _. Known (λ t os ps. IsSound t os ps × IsNew key os ps)} _ _
          (Runs-demand _ _ (λ _ w p. p) (λ w p. p.0)) (λ _. Runs-gets _ (λ w p. (p, refl))))
        (λ o. Runs-fact _ _ (λ e.
          Runs-bind {R = λ _. Known (IsPlaced key)} _ _
            (Runs-store_call env (λ t os ps. IsSound t os ps × IsNew key os ps) (IsPlaced key)
              IsSound (put_object o)
              (λ w p.
                subst (λ k. IsPlaced k w.tables (o ∷ without_object o.key w.objects) w.parts) e
                  (IsPlaced-put o w.tables w.objects w.parts p.0
                    (subst (λ k. IsNew k w.objects w.parts) (sym e) p.1)
                    (subst (λ k. has_prefix k derived_prefix ≡ false) (sym e) d)))
              (λ w p. p.0) (λ w p. p.sound))
            (λ _. Runs-pure _ (λ w p. p))))

  -- storeBlob
  pub Runs-store_blob :
      (owner path body : Bytes) (size : Option ℕ) (mime_type : Bytes)
      → Runs
          (Known (Fresh env path))
          (store_blob env owner path body size mime_type)
          (λ f. Known (IsPlaced f.blob_key))
          Sound
  unfolding store_blob
  Runs-store_blob owner path body size mime_type =
      Runs-bind
        {R = λ key w.
          Known (λ t os ps. IsSound t os ps × IsNew key os ps) w
          × (has_prefix key derived_prefix ≡ false)}
        _ _
        (Runs-bind {R = λ _. Known (Fresh env path)} _ _
          (Runs-bind {R = λ _. Known (Fresh env path)} _ _
            (Runs-post _ Sound _ (λ _ w p. p) (λ w p. p.0)
              (Runs-valid (Known (Fresh env path)) (validate_path path)))
            (λ _.
              Runs-post _ Sound _ (λ _ w p. p) (λ w p. p.0) (Runs-store_read env (Fresh env path))))
          (λ _.
            Runs-gets _ (λ w p. ((p.0, p.1 w.tick _), new_blob_key-original env w.tick path _))))
        (λ key.
          Runs-fact _ _
            (λ d. Runs-bind _ _ (Runs-store_put key body size d) (λ o. Runs-pure _ (λ w p. p))))

  -- CompleteUpload of the store
  pub Runs-store_complete :
      (key id : Bytes) → Runs Sound (store_complete env key id) (λ _. Known (IsPlaced key)) Sound
  unfolding store_complete publish_part put_object abort_part
  Runs-store_complete key id =
      Runs-bind {R = λ p w. Sound w × (find_part key id w.parts ≡ some p)} _ _
        (Runs-bind {R = λ r w. Sound w × (find_part key id w.parts ≡ r)} _ _
          (Runs-gets _ (λ w p. (p, refl))) Runs-or_missing)
        (λ p.
          Runs-bind {R = λ o w. (Sound w × (find_part key id w.parts ≡ some p)) × (o.key ≡ key)} _ _
            (Runs-gets _ (λ w q. (q, refl)))
            (λ o. Runs-fact _ _ (λ e.
              Runs-bind {R = λ _. Known (IsPlaced key)} _ _
                (Runs-store_call env (λ t os ps. IsSound t os ps × (find_part key id ps ≡ some p))
                  (IsPlaced key) IsSound (publish_part o id) (λ w q. published o p w e q.0 q.1)
                  (λ w q. q.0) (λ w q. q.sound))
                (λ _. Runs-pure _ (λ w q. q)))))
    where
      Runs-or_missing :
          (r : Option Part)
          → Runs
              (λ w. Sound w × (find_part key id w.parts ≡ r))
              (or_missing r)
              (λ p w. Sound w × (find_part key id w.parts ≡ some p))
              Sound
      Runs-or_missing none = Runs-raise _ (λ w p. p.0)
      Runs-or_missing (some p) = Runs-pure _ (λ w q. q)

      published :
          (o : Object) (p : Part) (w : World)
          → o.key ≡ key
          → Sound w
          → find_part key id w.parts ≡ some p
          → Known (IsPlaced key) (publish_part o id w)
      published o p w e s f =
          subst (λ k. Known (IsPlaced k) (publish_part o id w)) e
            (IsPlaced-publish o id p w.tables w.objects w.parts
              (subst (λ k. find_part k id w.parts ≡ some p) (sym e) f) s)
