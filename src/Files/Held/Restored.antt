-- ===== src/Files/Held/Restored.antt =====
-- What putting a deletion back does to the rows that hold a blob.
use stratus_backend.Prelude.{ℕ, zero, suc, ap, ◌∙◌, List, [], ◌∷◌, arith}
use stratus_backend.Prelude.Text.{Bytes, beq}
use stratus_backend.Prelude.Result.{Result, ok, err}
use stratus_backend.Db.Path.{parent_of, max_path_len}
use stratus_backend.Files.World.{
  Env, File, Trashed, Tables, FilesFault, not_found, conflict, invalid_path, broken, size_mismatch,
  upload_offset, empty_index, no_space, out_of_fuel,
}
use stratus_backend.Files.Action.{Action, Session, ◌>>=◌, pure, try}
use stratus_backend.Files.Repo.{file_by_path}
use stratus_backend.Files.Repo.Trash.{trashed_in}
use stratus_backend.Files.Service.Names.{max_copies, free_name, free_from, answered}
use stratus_backend.Files.Trash.{parent_made, restore_parents, restored}
use stratus_backend.Files.Rules.{
  Runs, Runs-pure, Runs-raise, Runs-if, Runs-bind, Runs-demand, Runs-post, Runs-fact, Runs-try,
  Runs-at, Caught,
}
use stratus_backend.Files.Held.{At, Any, Runs-file_by_path}
use stratus_backend.Files.Held.Tree.{IsLess, Grows, Runs-create_dir}
use stratus_backend.Files.Held.Bin.{
  IsBatch, IsRestored, Runs-trashed_in, Runs-delete_trash, Runs-put_back, restored-IsLess,
}

-- The search for a free name changes what its lookups change.
module _ {S : Type 0} (P : S → Type 0) (stat : Bytes → Action S File) (target : Bytes)
    (keeps : (path : Bytes) → Runs P (stat path) (λ _. P) P) where
  Runs-answered :
      (candidate : Bytes) (rest : Action S Bytes) (r : Result FilesFault File)
      → Runs P rest (λ _. P) P
      → Runs (Caught (λ _. P) P r) (answered stat target candidate rest r) (λ _. P) P
  unfolding answered
  Runs-answered candidate rest (ok f) h = h
  Runs-answered candidate rest (err not_found) h = Runs-pure _ (λ s p. p)
  Runs-answered candidate rest (err conflict) h = Runs-raise _ (λ s p. p)
  Runs-answered candidate rest (err invalid_path) h = Runs-raise _ (λ s p. p)
  Runs-answered candidate rest (err broken) h = Runs-raise _ (λ s p. p)
  Runs-answered candidate rest (err size_mismatch) h = Runs-raise _ (λ s p. p)
  Runs-answered candidate rest (err upload_offset) h = Runs-raise _ (λ s p. p)
  Runs-answered candidate rest (err empty_index) h = Runs-raise _ (λ s p. p)
  Runs-answered candidate rest (err no_space) h = Runs-raise _ (λ s p. p)
  Runs-answered candidate rest (err out_of_fuel) h = Runs-raise _ (λ s p. p)

  Runs-free_from : (left n : ℕ) → Runs P (free_from stat target left n) (λ _. P) P
  unfolding free_from
  Runs-free_from zero n = Runs-raise _ (λ s p. p)
  Runs-free_from (suc left) n =
      Runs-bind _ _ (Runs-try P _ (keeps _))
        (λ r. Runs-answered _ _ r (Runs-free_from left (suc n)))

  pub Runs-free_name : Runs P (free_name stat target) (λ _. P) P
  unfolding free_name
  Runs-free_name = Runs-free_from max_copies 1

module _ (env : Env) where
  Runs-parent_made :
      (t : Tables) (owner parent : Bytes) (above : Action Session (Unit {0}))
      (r : Result FilesFault File)
      → Runs (At t) above (λ _ s. Grows t s.tables) Any
      → Runs
          (Caught (λ _. At t) (At t) r)
          (parent_made env owner parent above r)
          (λ _ s. Grows t s.tables)
          Any
  unfolding parent_made
  Runs-parent_made t owner parent above (ok f) h =
      Runs-demand _ _ (λ _ s p. (ap (λ v. v.trash) p, λ k. rw p (omega arith))) (λ s p. tt)
  Runs-parent_made t owner parent above (err not_found) h =
      Runs-bind {R = λ _ s. Grows t s.tables} _ _
        (Runs-bind _ _ h (λ _. Runs-at _ (λ u w.
          Runs-post _ Any _
            (λ _ s p. (p.0 ∙ w.0, λ k. let a = w.1 k in let b = p.1 k in omega (arith, a, b)))
            (λ s p. p) (Runs-create_dir env u owner parent))))
        (λ _. Runs-pure _ (λ s p. p))
  Runs-parent_made t owner parent above (err conflict) h = Runs-raise _ (λ s p. tt)
  Runs-parent_made t owner parent above (err invalid_path) h = Runs-raise _ (λ s p. tt)
  Runs-parent_made t owner parent above (err broken) h = Runs-raise _ (λ s p. tt)
  Runs-parent_made t owner parent above (err size_mismatch) h = Runs-raise _ (λ s p. tt)
  Runs-parent_made t owner parent above (err upload_offset) h = Runs-raise _ (λ s p. tt)
  Runs-parent_made t owner parent above (err empty_index) h = Runs-raise _ (λ s p. tt)
  Runs-parent_made t owner parent above (err no_space) h = Runs-raise _ (λ s p. tt)
  Runs-parent_made t owner parent above (err out_of_fuel) h = Runs-raise _ (λ s p. tt)

  keeps_At :
      (t : Tables) (owner path : Bytes)
      → Runs (At t) (file_by_path env owner path) (λ _. At t) (At t)
  keeps_At t owner path =
      Runs-post _ _ _ (λ _ s p. p.0) (λ s p. p) (Runs-file_by_path env t owner path)

  Runs-restore_parents :
      (fuel : ℕ) (t : Tables) (owner target : Bytes)
      → Runs (At t) (restore_parents env fuel owner target) (λ _ s. Grows t s.tables) Any
  unfolding restore_parents
  Runs-restore_parents zero t owner target = Runs-raise _ (λ s p. tt)
  Runs-restore_parents (suc fuel) t owner target =
      Runs-if (beq (parent_of target) []) (pure tt)
        (try (file_by_path env owner (parent_of target))
          >>= parent_made env owner (parent_of target)
              (restore_parents env fuel owner (parent_of target)))
        (λ _. Runs-pure _ (λ s p. (ap (λ v. v.trash) p, λ k. rw p (omega arith))))
        (λ _. Runs-bind _ _ (Runs-try Any _ (keeps_At t owner (parent_of target))) (λ r.
          Runs-parent_made t owner (parent_of target) _ r
            (Runs-restore_parents fuel t owner (parent_of target))))

  IsRestored-after :
      (t u v : Tables) (rows : List Trashed) → Grows t u → IsRestored u rows v → IsRestored t rows v
  IsRestored-after t u v rows p q =
      (q.0 ∙ p.0, λ k. let a = p.1 k in let b = q.1 k in omega (arith, a, b))

  Runs-restored :
      (t : Tables) (owner batch : Bytes) (rows : List Trashed)
      → IsBatch owner batch t rows
      → Runs (At t) (restored env owner batch rows) (λ _ s. IsLess t s.tables) Any
  unfolding restored
  Runs-restored t owner batch [] same = Runs-raise _ (λ s p. tt)
  Runs-restored t owner batch (x ∷ xs) same =
      Runs-bind {R = λ _. At t} _ _
        (Runs-post _ Any _ (λ _ s p. p) (λ s p. tt)
          (Runs-free_name (At t) (file_by_path env owner) x.file.path (keeps_At t owner)))
        (λ to.
          Runs-bind {R = λ _ s. IsRestored t (x ∷ xs) s.tables} _ _
            (Runs-bind _ _ (Runs-restore_parents (suc max_path_len) t owner to) (λ _.
              Runs-at _ (λ u w.
                Runs-post _ Any _ (λ _ s p. IsRestored-after t u s.tables (x ∷ xs) w p) (λ s p. p)
                  (Runs-put_back env u owner x.file.path to (x ∷ xs)))))
            (λ files.
              Runs-bind {R = λ _ s. IsRestored t (x ∷ xs) s.tables} _ _
                (Runs-at _
                  (λ u w. Runs-post _ Any _ (λ _ s p. rw p w) (λ s p. tt) (keeps_At u owner to)))
                (λ root.
                  Runs-bind {R = λ _ s. IsLess t s.tables} _ _
                    (Runs-delete_trash env (λ u. IsRestored t (x ∷ xs) u) (IsLess t) owner batch
                      (λ u p. restored-IsLess t u owner batch (x ∷ xs) same p))
                    (λ _. Runs-pure _ (λ s p. p)))))

  -- The transaction of Restore puts no blob into two places.
  pub Runs-restoring :
      (t : Tables) (owner batch : Bytes)
      → Runs
          (At t)
          (trashed_in env owner batch >>= restored env owner batch)
          (λ _ s. IsLess t s.tables)
          Any
  Runs-restoring t owner batch =
      Runs-bind _ _ (Runs-trashed_in env t owner batch)
        (λ rows. Runs-fact _ _ (λ same. Runs-restored t owner batch rows same))
