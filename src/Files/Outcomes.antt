-- ===== src/Files/Outcomes.antt =====
-- What the operations of internal/files leave as it was.
pub mod Originals
pub mod Rows
pub mod Kept
pub mod Written
use stratus_backend.Prelude.{ℕ, ◌≡◌, refl, List, [], ◌∷◌, Option}
use stratus_backend.Prelude.Text.{Bytes, beq}
use stratus_backend.Prelude.Result.{Result, ok, err}
use stratus_backend.Db.Path.{validate_path}
use stratus_backend.Files.World.{Env, File, Object, Part, Tables, World, FilesFault, conflict}
use stratus_backend.Files.Action.{Action, Session, ◌>>◌, pure, raise, try, tx}
use stratus_backend.Files.Store.{put_object, delete_object, store_put, store_delete}
use stratus_backend.Files.Service.{
  drop_blob, drop_superseded, store_blob, finish_write, write_file, write, written, mkdir, move,
  remove, replace,
}
use stratus_backend.Files.Trash.{announce_all, restore}
use stratus_backend.Files.Rules.{
  Runs, Runs-pure, Runs-raise, Runs-gets, Runs-if, Runs-bind, Runs-demand, Runs-post, Runs-try,
  Post, Caught,
}
use stratus_backend.Files.Rules.Calls.{Runs-tx, Runs-store_read, Runs-store_call, About, Known}
use stratus_backend.Files.Held.{Any, Runs-valid}

-- Nothing is known.
abbrev Open : World → Type 0
Open w = Unit {0}

any-Post : {S A : Type 0} (x : S × Result FilesFault A) → Post (λ _ _. Unit {0}) (λ _. Unit {0}) x
any-Post (s, ok a) = tt
any-Post (s, err e) = tt

pub Runs-any :
    {S A : Type 0} {P : S → Type 0} (m : Action S A) → Runs P m (λ _ _. Unit {0}) (λ _. Unit {0})
Runs-any m = record { run = λ s p. any-Post (m s) }

-- An answer of an operation: one that is an error comes with the tables `t`.
abbrev pub IsClean : {A : Type 0} → Tables → World × Result FilesFault A → Type 0
IsClean t x = Post (λ _ _. Unit {0}) (λ w. w.tables ≡ t) x

-- The operation returns, or it fails and leaves the tables as they were.
pub IsAtomic : {A : Type 0} → Action World A → Type 0
IsAtomic m = (w : World) → IsClean w.tables (m w)

-- The operation leaves the blob store as it was, whatever it answers.
pub LeavesStore : {A : Type 0} → Action World A → Type 0
LeavesStore m = (w : World) → ((m w).0.objects ≡ w.objects) × ((m w).0.parts ≡ w.parts)

IsAtomic-of :
    {A : Type 0} (m : Action World A)
    → ((t : Tables) → Runs (λ w. w.tables ≡ t) m (λ _. Open) (λ w. w.tables ≡ t))
    → IsAtomic m
unfolding IsAtomic
IsAtomic-of m h w = (h w.tables).run w refl

same-Post :
    {A : Type 0} (os : List Object) (ps : List Part) (x : World × Result FilesFault A)
    → Post (λ _ w. (w.objects ≡ os) × (w.parts ≡ ps)) (λ w. (w.objects ≡ os) × (w.parts ≡ ps)) x
    → (x.0.objects ≡ os) × (x.0.parts ≡ ps)
same-Post os ps (w, ok a) h = h
same-Post os ps (w, err e) h = h

leaves_of :
    {A : Type 0} (m : Action World A)
    → ((P : About)
        → (((t u : Tables) (os : List Object) (ps : List Part) → P t os ps → P u os ps))
        → Runs (Known P) m (λ _. Known P) (Known P))
    → LeavesStore m
unfolding LeavesStore
leaves_of m h w =
    same-Post w.objects w.parts (m w)
      ((h (λ _ os ps. (os ≡ w.objects) × (ps ≡ w.parts)) (λ t u os ps p. p)).run w (refl, refl))

module _ (env : Env) where
  atomic_tx :
      {A : Type 0} (t : Tables) (m : Action Session A)
      → Runs (λ w. w.tables ≡ t) (tx env m) (λ _. Open) (λ w. w.tables ≡ t)
  atomic_tx t m = Runs-tx env (λ u _ _. u ≡ t) (λ _ _ _ _. Unit {0}) m (λ w p. Runs-any m)

  store_tx :
      {A : Type 0} (m : Action Session A) (P : About)
      → ((t u : Tables) (os : List Object) (ps : List Part) → P t os ps → P u os ps)
      → Runs (Known P) (tx env m) (λ _. Known P) (Known P)
  store_tx m P h =
      Runs-tx env P (λ _. P) m
        (λ w p.
          Runs-post _ Any _ (λ _ s _. h w.tables s.tables w.objects w.parts p) (λ s p. tt)
            (Runs-any m))

  tables_blob :
      (t : Tables) (owner path body : Bytes) (size : Option ℕ) (mime_type : Bytes)
      → Runs
          (λ w. w.tables ≡ t)
          (store_blob env owner path body size mime_type)
          (λ _ w. w.tables ≡ t)
          (λ w. w.tables ≡ t)
  unfolding store_blob store_put put_object
  tables_blob t owner path body size mime_type =
      Runs-bind {R = λ _ w. w.tables ≡ t} _ _
        (Runs-bind {R = λ _ w. w.tables ≡ t} _ _
          (Runs-bind {R = λ _ w. w.tables ≡ t} _ _
            (Runs-valid (λ w. w.tables ≡ t) (validate_path path))
            (λ _. Runs-store_read env (λ u _ _. u ≡ t)))
          (λ _. Runs-gets _ (λ w p. p)))
        (λ key.
          Runs-bind {R = λ _ w. w.tables ≡ t} _ _
            (Runs-bind {R = λ _ w. w.tables ≡ t} _ _
              (Runs-bind {R = λ _ w. w.tables ≡ t} _ _ (Runs-demand _ _ (λ _ w p. p) (λ w p. p))
                (λ _. Runs-gets _ (λ w p. p)))
              (λ o.
                Runs-bind {R = λ _ w. w.tables ≡ t} _ _
                  (Runs-store_call env (λ u _ _. u ≡ t) (λ u _ _. u ≡ t) (λ u _ _. u ≡ t)
                    (put_object o) (λ w p. p) (λ w p. p) (λ w p. p))
                  (λ _. Runs-pure _ (λ w p. p))))
            (λ o. Runs-pure _ (λ w p. p)))

  -- What a write leaves behind cannot fail it.
  never_fails :
      (t : Tables) (superseded : Bytes)
      → Runs Open (drop_superseded env superseded) (λ _. Open) (λ w. w.tables ≡ t)
  unfolding drop_superseded
  never_fails t superseded =
      Runs-if (beq superseded []) (pure tt) (try (drop_blob env superseded) >> pure tt)
        (λ _. Runs-pure _ (λ w p. tt))
        (λ _.
          Runs-bind {R = λ _. Open} _ _
            (Runs-post _ (λ w. w.tables ≡ t) _ (λ _ w p. tt) (λ w p. p)
              (Runs-try (λ w. w.tables ≡ t) _ (Runs-any (drop_blob env superseded))))
            (λ _. Runs-pure _ (λ w p. tt)))

  finish_atomic :
      (t : Tables) (key : Bytes) (r : Result FilesFault (File × Bytes))
      → Runs
          (Caught (λ _. Open) (λ w. w.tables ≡ t) r)
          (finish_write env key r)
          (λ _. Open)
          (λ w. w.tables ≡ t)
  unfolding finish_write store_delete delete_object
  finish_atomic t key (ok (stored, superseded)) =
      Runs-bind {R = λ _. Open} _ _ (never_fails t superseded) (λ _. Runs-pure _ (λ w p. tt))
  finish_atomic t key (err e) =
      Runs-bind {R = λ _ w. w.tables ≡ t} _ _
        (Runs-post _ (λ w. w.tables ≡ t) _ either (λ w p. p)
          (Runs-try (λ w. w.tables ≡ t) _
            (Runs-store_call env (λ u _ _. u ≡ t) (λ u _ _. u ≡ t) (λ u _ _. u ≡ t)
              (delete_object key) (λ w p. p) (λ w p. p) (λ w p. p))))
        (λ _. Runs-raise e (λ w p. p))
    where
      either :
          (r : Result FilesFault ℕ) (w : World)
          → Caught (λ _ w. w.tables ≡ t) (λ w. w.tables ≡ t) r w
          → w.tables ≡ t
      either (ok n) w p = p
      either (err e) w p = p

  write_atomic :
      (t : Tables) (owner path body : Bytes) (size : Option ℕ) (mime_type : Bytes)
      → Runs
          (λ w. w.tables ≡ t)
          (write env owner path body size mime_type)
          (λ _. Open)
          (λ w. w.tables ≡ t)
  unfolding write write_file written
  write_atomic t owner path body size mime_type =
      Runs-bind {R = λ _. Open} _ _
        (Runs-bind _ _ (tables_blob t owner path body size mime_type) (λ f.
          Runs-bind _ _ (Runs-try (λ w. w.tables ≡ t) _ (atomic_tx t (replace env f)))
            (finish_atomic t f.blob_key)))
        (λ f.
          Runs-bind {R = λ _. Open} _ _ (record { run = λ w p. tt }) (λ _. Runs-pure _ (λ w p. tt)))

  announce_never :
      (t : Tables) (fs : List File) → Runs Open (announce_all fs) (λ _. Open) (λ w. w.tables ≡ t)
  unfolding announce_all written
  announce_never t [] = Runs-pure _ (λ w p. tt)
  announce_never t (f ∷ fs) =
      Runs-bind {R = λ _. Open} _ _ (record { run = λ w p. tt }) (λ _. announce_never t fs)

  announce_store :
      (P : About) (fs : List File) → Runs (Known P) (announce_all fs) (λ _. Known P) (Known P)
  unfolding announce_all written
  announce_store P [] = Runs-pure _ (λ w p. p)
  announce_store P (f ∷ fs) =
      Runs-bind {R = λ _. Known P} _ _ (record { run = λ w p. p }) (λ _. announce_store P fs)

  -- A write, a new directory, a move, a removal and a restore that fail leave every table as it was.
  pub failed-IsAtomic :
      (owner path to body mime_type batch : Bytes) (size : Option ℕ)
      → IsAtomic (write env owner path body size mime_type)
        × IsAtomic (mkdir env owner path)
        × IsAtomic (move env owner path to)
        × IsAtomic (remove env owner path)
        × IsAtomic (restore env owner batch)
  unfolding mkdir move remove restore
  failed-IsAtomic owner path to body mime_type batch size = (
    IsAtomic-of _ (λ t. write_atomic t owner path body size mime_type),
    IsAtomic-of _ (λ t.
        Runs-bind {R = λ _ w. w.tables ≡ t} _ _
          (Runs-valid (λ w. w.tables ≡ t) (validate_path path)) (λ _. atomic_tx t _)),
    IsAtomic-of _ (λ t. atomic_tx t _),
    IsAtomic-of _ (λ t.
        Runs-bind {R = λ _ w. w.tables ≡ t} _ _ (Runs-gets _ (λ w p. p)) (λ _. atomic_tx t _)),
    IsAtomic-of _ (λ t.
        Runs-if (beq owner []) (raise conflict) _ (λ _. Runs-raise _ (λ w p. p))
          (λ _. Runs-bind {R = λ _. Open} _ _ (atomic_tx t _) (λ answer.
            Runs-bind {R = λ _. Open} _ _ (announce_never t answer.1)
              (λ _. Runs-pure _ (λ w p. tt))))),
  )

  -- A new directory, a move, a removal and a restore change nothing in the blob store, whether they
  -- return or fail: the bytes stay where they were written.
  pub moved-LeavesStore :
      (owner path to batch : Bytes)
      → LeavesStore (mkdir env owner path)
        × LeavesStore (move env owner path to)
        × LeavesStore (remove env owner path)
        × LeavesStore (restore env owner batch)
  unfolding mkdir move remove restore
  moved-LeavesStore owner path to batch = (
    leaves_of _ (λ P h.
        Runs-bind {R = λ _. Known P} _ _ (Runs-valid (Known P) (validate_path path))
          (λ _. store_tx _ P h)),
    leaves_of _ (λ P h. store_tx _ P h),
    leaves_of _
        (λ P h. Runs-bind {R = λ _. Known P} _ _ (Runs-gets _ (λ w p. p)) (λ _. store_tx _ P h)),
    leaves_of _ (λ P h.
        Runs-if (beq owner []) (raise conflict) _ (λ _. Runs-raise _ (λ w p. p))
          (λ _. Runs-bind {R = λ _. Known P} _ _ (store_tx _ P h) (λ answer.
            Runs-bind {R = λ _. Known P} _ _ (announce_store P answer.1)
              (λ _. Runs-pure _ (λ w p. p))))),
  )
