-- ===== src/Files/Held/Removed.antt =====
-- What removing a tree does to the rows that hold a blob: what it answers with held what is gone.
use stratus_backend.Prelude.{
  ℕ, zero, suc, ◌+◌, ◌≤◌, ◌≡◌, refl, true, not, ◌&&◌, List, [], ◌∷◌, ◌++◌, some, inl, inr,
  Bool-cases, arith,
}
use stratus_backend.Prelude.Text.{Bytes}
use stratus_backend.Db.Path.{validate_path, validate_dir}
use stratus_backend.Files.World.{Env, File, Tables}
use stratus_backend.Files.Action.{Action, Session, ◌>>◌, raise, statement}
use stratus_backend.Files.Repo.{
  at, where_, find_file, list_files, delete_file, is_some, is_nil, unaffected,
}
use stratus_backend.Files.Service.{remove_each, remove_tree}
use stratus_backend.Files.Rules.{
  Runs, Runs-pure, Runs-raise, Runs-gets, Runs-if, Runs-bind, Runs-statement, Runs-change,
  Runs-post, Runs-fact, Runs-at,
}
use stratus_backend.Files.Count.{
  bit, count, holds, held, held_by, count-append, count-cons, count-nil,
}
use stratus_backend.Files.Held.{At, Any, Runs-valid, Runs-file_by_path}
use stratus_backend.Files.Held.Rows.{count-delete}

-- `u` is `t` without `rows`.
abbrev pub IsWithout : Tables → List File → Tables → Type 0
IsWithout t rows u = (k : Bytes) → held k u + count (holds k) rows ≤ held k t

count-last :
    (k : Bytes) (rows : List File) (f : File)
    → count (holds k) (rows ++ f ∷ []) ≡ count (holds k) rows + bit (holds k f)
count-last k rows f =
    let a = count-append (holds k) rows (f ∷ []) in
    let b = count-cons (holds k) f [] in let c = count-nil (holds k) in omega (arith, a, b, c)

-- A directory holds no blob, and a file the one that its row names.
directory_gone :
    (t : Tables) (f : File) (rows : List File) (u v : Tables) (owner path : Bytes)
    → f.is_dir ≡ true
    → IsWithout t rows u
    → ((k : Bytes) → held k v + held_by k (find_file owner path u.rows) ≤ held k u)
    → IsWithout t (rows ++ f ∷ []) v
directory_gone t f rows u v owner path e w p k =
    let a = count-last k rows f in
    let z : bit (holds k f) ≡ 0 = rw e refl in
    let b = w k in let c = p k in omega (arith, a, b, c, z)

file_gone :
    (f : File) (t v : Tables) (owner path : Bytes)
    → find_file owner path t.rows ≡ some f
    → ((k : Bytes) → held k v + held_by k (find_file owner path t.rows) ≤ held k t)
    → IsWithout t ([] ++ f ∷ []) v
file_gone f t v owner path found p k =
    let a = count-last k [] f in
    let b : held k v + held_by k (some f) ≤ held k t = rw found at (p k) in
    let c = count-nil (holds k) in omega (arith, a, b, c)

module _ (env : Env) where
  Runs-list_files :
      (t : Tables) (owner dir : Bytes) → Runs (At t) (list_files env owner dir) (λ _. At t) Any
  unfolding list_files
  Runs-list_files t owner dir =
      Runs-bind {R = λ _. At t} _ _
        (Runs-bind {R = λ _. At t} _ _
          (Runs-post _ Any _ (λ _ s p. p) (λ s p. tt) (Runs-valid (At t) (validate_dir dir)))
          (λ _. Runs-post _ Any _ (λ _ s p. p) (λ s p. tt) (Runs-statement env (λ u. u ≡ t))))
        (λ _. Runs-gets _ (λ s p. p))

  Runs-delete_file :
      (t : Tables) (owner path : Bytes)
      → Runs
          (At t)
          (delete_file env owner path)
          (λ _ s.
            (k : Bytes) → held k s.tables + held_by k (find_file owner path t.rows) ≤ held k t)
          Any
  unfolding delete_file
  Runs-delete_file t owner path =
      Runs-bind {R = λ _. At t} _ _
        (Runs-bind {R = λ _. At t} _ _
          (Runs-bind {R = λ _. At t} _ _
            (Runs-post _ Any _ (λ _ s p. p) (λ s p. tt) (Runs-valid (At t) (validate_path path)))
            (λ _. Runs-post _ Any _ (λ _ s p. p) (λ s p. tt) (Runs-statement env (λ u. u ≡ t))))
          (λ _. Runs-gets _ (λ s p. p)))
        (λ children. Runs-bind {R = λ _. At t} _ _ (Runs-gets _ (λ s p. p)) (λ old.
          Runs-if (is_some old && is_nil children) _ (statement env >> raise (unaffected old))
            (λ _.
              Runs-change (λ u. u ≡ t) _ Any
                (λ u. record u { rows = where_ (λ f. not (at owner path f)) u.rows })
                (λ u p k. rw p (omega (arith, count-delete k owner path t.rows))))
            (λ _.
              Runs-bind {R = λ _. Any} _ _
                (Runs-post _ Any _ (λ _ s p. tt) (λ s p. tt) (Runs-statement env (λ u. u ≡ t)))
                (λ _. Runs-raise _ (λ s p. p)))))

  Runs-remove_each :
      (remove : Bytes → Action Session (List File))
      → ((t : Tables) (path : Bytes)
          → Runs (At t) (remove path) (λ rows s. IsWithout t rows s.tables) Any)
      → (t : Tables) (children : List File)
      → Runs (At t) (remove_each remove children) (λ rows s. IsWithout t rows s.tables) Any
  unfolding remove_each
  Runs-remove_each remove h t [] =
      Runs-pure _ (λ s p k. let c = count-nil (holds k) in rw p (omega (arith, c)))
  Runs-remove_each remove h t (child ∷ children) = Runs-bind _ _ (h t child.path) (λ first.
      Runs-at _ (λ u w.
        Runs-bind {R = λ rows s. IsWithout t (first ++ rows) s.tables} _ _
          (Runs-post _ Any _
            (λ rows s p k.
              let a = count-append (holds k) first rows in
              let b = w k in let c = p k in omega (arith, a, b, c))
            (λ s p. p) (Runs-remove_each remove h u children))
          (λ rows. Runs-pure _ (λ s p. p))))

  -- A tree that is removed: the rows that come back held what the tables no longer hold.
  pub Runs-remove_tree :
      (fuel : ℕ) (t : Tables) (owner path : Bytes)
      → Runs (At t) (remove_tree env fuel owner path) (λ rows s. IsWithout t rows s.tables) Any
  unfolding remove_tree
  Runs-remove_tree zero t owner path = Runs-raise _ (λ s p. tt)
  Runs-remove_tree (suc fuel) t owner path =
      Runs-bind {R = λ f s. (s.tables ≡ t) × (find_file owner path t.rows ≡ some f)} _ _
        (Runs-post _ Any _ (λ _ s p. p) (λ s p. tt) (Runs-file_by_path env t owner path))
        (λ f. Runs-fact _ _ (λ found. elim (Bool-cases f.is_dir) [
          | inl e ↦ simp e (
              Runs-bind {R = λ rows s. IsWithout t rows s.tables} _ _
                (Runs-bind {R = λ _. At t} _ _ (Runs-list_files t owner path) (
                  Runs-remove_each (remove_tree env fuel owner)
                    (λ u p. Runs-remove_tree fuel u owner p) t))
                (λ rows. Runs-at _ (λ u w.
                  Runs-bind _ _ (Runs-delete_file u owner path) (λ _.
                    Runs-pure _ (λ s p. directory_gone t f rows u s.tables owner path e w p)))))
          | inr e ↦ simp e (
              Runs-bind {R = λ rows s. (s.tables ≡ t) × (rows ≡ [])} _ _
                (Runs-pure [] (λ s p. (p, refl)))
                (λ rows. Runs-fact _ _ (λ q.
                  Runs-bind _ _ (Runs-delete_file t owner path)
                    (λ _. Runs-pure _ (λ s p. rw q (file_gone f t s.tables owner path found p))))))
        ]))
