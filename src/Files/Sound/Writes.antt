-- ===== src/Files/Sound/Writes.antt =====
-- The operations of internal/files/files.go keep the rule of the file layer, whatever fails.
use stratus_backend.Prelude.{ℕ, suc, ◌≡◌, List, [], Option, some, arith}
use stratus_backend.Prelude.Text.{Bytes}
use stratus_backend.Prelude.Result.{Result, ok, err}
use stratus_backend.Db.Path.{validate_path, max_path_len}
use stratus_backend.Files.World.{Env, File, Tables, World, FilesFault}
use stratus_backend.Files.Action.{Action, Session, ◌>>◌, raise, statement, try, tx, alone}
use stratus_backend.Files.Store.{store_delete}
use stratus_backend.Files.Service.{
  replace, finish_write, write_file, write, reserve_file, written, mkdir, move, remove,
}
use stratus_backend.Files.Rules.{
  Runs, Runs-pure, Runs-raise, Runs-gets, Runs-bind, Runs-statement, Runs-post, Runs-pre, Runs-try,
  Runs-at, Caught,
}
use stratus_backend.Files.Rules.Calls.{Runs-tx, Runs-alone, Known}
use stratus_backend.Files.Held.{At, Any, Runs-valid}
use stratus_backend.Files.Held.Tree.{
  IsLess, Runs-replace, Runs-create_dir, Runs-move_file, Runs-require_parent,
}
use stratus_backend.Files.Held.Removed.{IsWithout, Runs-remove_tree}
use stratus_backend.Files.Held.Bin.{IsWith, Runs-trash_rows}
use stratus_backend.Files.Sound.{IsSound}
use stratus_backend.Files.Sound.Blobs.{IsPlaced, IsSound-less, placed-replace}
use stratus_backend.Files.Sound.Calls.{
  Sound, Fresh, Superseded, Runs-delete-Sound, Runs-drop_superseded, Runs-store_blob,
}

-- The same tables are no more.
pub IsLess-refl : (t : Tables) (s : Session) → s.tables ≡ t → IsLess t s.tables
IsLess-refl t s e k = rw e (omega arith)

-- What a failed or a finished transaction of a write leaves.
abbrev pub Replaced : Bytes → Result FilesFault (File × Bytes) → World → Type 0
Replaced key = Caught (λ answer. Known (Superseded answer.1)) (Known (IsPlaced key))

module _ (env : Env) where
  pub Sound-tx :
      {A : Type 0} (m : Action Session A)
      → ((t : Tables) → Runs (At t) m (λ _ s. IsLess t s.tables) Any)
      → Runs Sound (tx env m) (λ _. Sound) Sound
  Sound-tx m h =
      Runs-tx env IsSound (λ _. IsSound) m
        (λ w s.
          Runs-post _ _ _ (λ _ u l. IsSound-less w.tables u.tables w.objects w.parts s l) (λ u l. l)
            (h w.tables))

  pub Sound-alone :
      {A : Type 0} (m : Action Session A)
      → ((t : Tables) → Runs (At t) m (λ _ s. IsLess t s.tables) (λ s. IsLess t s.tables))
      → Runs Sound (alone m) (λ _. Sound) Sound
  Sound-alone m h =
      Runs-alone IsSound (λ _. IsSound) IsSound m
        (λ w s.
          Runs-post _ _ _ (λ _ u l. IsSound-less w.tables u.tables w.objects w.parts s l)
            (λ u l. IsSound-less w.tables u.tables w.objects w.parts s l) (h w.tables))

  pub IsLess-statement :
      (t : Tables) → Runs (At t) (statement env) (λ _ s. IsLess t s.tables) (λ s. IsLess t s.tables)
  IsLess-statement t =
      Runs-post _ _ _ (λ _ s p. IsLess-refl t s p) (λ s p. IsLess-refl t s p)
        (Runs-statement env (λ u. u ≡ t))

  -- The transaction of a write, for a file whose blob has been put.
  pub Runs-replacing :
      (f : File)
      → Runs
          (Known (IsPlaced f.blob_key))
          (try (tx env (replace env f)))
          (Replaced f.blob_key)
          Sound
  Runs-replacing f = Runs-try Sound _ (
      Runs-tx env (IsPlaced f.blob_key) (λ answer. Superseded answer.1) (replace env f)
        (λ w p.
          Runs-post _ _ _
            (λ answer s r. placed-replace f answer.1 w.tables s.tables w.objects w.parts p r)
            (λ s r. r) (Runs-replace env w.tables f)))

  -- A write that failed takes its blob away again.
  pub Runs-give_up :
      {A : Type 0} (key : Bytes) (e : FilesFault)
      → Runs
          (Known (IsPlaced key))
          (try (store_delete env key) >> raise {A = A} e)
          (λ _. Sound)
          Sound
  Runs-give_up key e =
      Runs-pre (Known (IsPlaced key)) _ (λ w p. (p.sound, p.unnamed))
        (Runs-bind {R = λ _. Sound} _ _
          (Runs-post _ Sound _ either (λ w p. p) (Runs-try Sound _ (Runs-delete-Sound env key)))
          (λ _. Runs-raise e (λ w p. p)))
    where
      either : (r : Result FilesFault ℕ) (w : World) → Caught (λ _. Sound) Sound r w → Sound w
      either (ok n) w p = p
      either (err e) w p = p

  Runs-finish_write :
      (key : Bytes) (r : Result FilesFault (File × Bytes))
      → Runs (Replaced key r) (finish_write env key r) (λ _. Sound) Sound
  unfolding finish_write
  Runs-finish_write key (err e) = Runs-give_up key e
  Runs-finish_write key (ok (stored, superseded)) =
      Runs-bind _ _ (Runs-drop_superseded env superseded) (λ _. Runs-pure _ (λ w p. p))

  pub Runs-write_file :
      (owner path body : Bytes) (size : Option ℕ) (mime_type : Bytes)
      → Runs
          (Known (Fresh env path))
          (write_file env owner path body size mime_type)
          (λ _. Sound)
          Sound
  unfolding write_file
  Runs-write_file owner path body size mime_type =
      Runs-bind _ _ (Runs-store_blob env owner path body size mime_type)
        (λ f. Runs-bind _ _ (Runs-replacing f) (Runs-finish_write f.blob_key))

  pub Runs-written : (f : File) → Runs Sound (written f) (λ _. Sound) Sound
  unfolding written
  Runs-written f = record { run = λ w p. p }

  pub Runs-write :
      (owner path body : Bytes) (size : Option ℕ) (mime_type : Bytes)
      → Runs (Known (Fresh env path)) (write env owner path body size mime_type) (λ _. Sound) Sound
  unfolding write
  Runs-write owner path body size mime_type =
      Runs-bind _ _ (Runs-write_file owner path body size mime_type)
        (λ f. Runs-bind _ _ (Runs-written f) (λ _. Runs-pure _ (λ w p. p)))

  pub Runs-reserve_file :
      (owner path mime_type : Bytes)
      → Runs (Known (Fresh env path)) (reserve_file env owner path mime_type) (λ _. Sound) Sound
  unfolding reserve_file
  Runs-reserve_file owner path mime_type = Runs-write_file owner path [] (some 0) mime_type

  pub Runs-mkdir : (owner path : Bytes) → Runs Sound (mkdir env owner path) (λ _. Sound) Sound
  unfolding mkdir
  Runs-mkdir owner path =
      Runs-bind {R = λ _. Sound} _ _ (Runs-valid Sound (validate_path path)) (λ _. Sound-tx _ (λ t.
        Runs-bind {R = λ _. At t} _ _
          (Runs-post _ Any _ (λ _ s p. p) (λ s p. tt) (Runs-require_parent env t owner path))
          (λ _. Runs-post _ _ _ (λ _ s p. p.1) (λ s p. p) (Runs-create_dir env t owner path))))

  pub Runs-move : (owner from to : Bytes) → Runs Sound (move env owner from to) (λ _. Sound) Sound
  unfolding move
  Runs-move owner from to = Sound-tx _ (λ t.
      Runs-bind {R = λ _. At t} _ _
        (Runs-post _ Any _ (λ _ s p. p) (λ s p. tt) (Runs-require_parent env t owner to))
        (λ _. Runs-move_file env t owner from to))

  -- The rows that a removal takes go to the trash.
  trashed_after :
      (t u v : Tables) (rows : List File) → IsWithout t rows u → IsWith u rows v → IsLess t v
  trashed_after t u v rows p q k = let a = p k in let b = q k in omega (arith, a, b)

  pub Runs-remove : (owner path : Bytes) → Runs Sound (remove env owner path) (λ _. Sound) Sound
  unfolding remove
  Runs-remove owner path = Runs-bind {R = λ _. Sound} _ _ (Runs-gets _ (λ w p. p)) (λ batch.
      Sound-tx _ (λ t. Runs-bind _ _ (Runs-remove_tree env (suc max_path_len) t owner path) (λ rows.
        Runs-bind {R = λ _ s. IsWithout t rows s.tables} _ _ (Runs-gets _ (λ s p. p)) (λ deleted_at.
          Runs-at _ (λ u w.
            Runs-post _ Any _ (λ _ s p. trashed_after t u s.tables rows w p) (λ s p. tt)
              (Runs-trash_rows env u batch rows deleted_at))))))
