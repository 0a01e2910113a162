-- ===== src/Files/Held/Tree.antt =====
-- What replacing a file, making a directory and moving a file do to the rows that hold a blob.
use stratus_backend.Prelude.{
  ℕ, ◌+◌, ◌≤◌, ◌≡◌, refl, ap, true, ◌&&◌, [], ◌∷◌, Option, none, some, inl, inr, Bool-cases, arith,
  if◌then◌else◌,
}
use stratus_backend.Prelude.Text.{Bytes, beq, beq_self}
use stratus_backend.Prelude.Result.{Result, ok, err}
use stratus_backend.Db.Path.{
  MoveFault, invalid, already_there, inside_itself, validate_path, validate_move, parent_of,
}
use stratus_backend.Files.World.{
  Env, File, Tables, FilesFault, not_found, conflict, invalid_path, broken, size_mismatch,
  upload_offset, empty_index, no_space, out_of_fuel,
}
use stratus_backend.Files.Action.{Session, ◌>>=◌, ◌>>◌, pure, raise, demand, statement}
use stratus_backend.Files.Repo.{
  find_file, file_by_path, create_dir, move_file, update_rows, move_one, move_below, add_row,
  vacant, move_fault, at, under, is_some,
}
use stratus_backend.Files.Service.{require_parent, displaced, replace}
use stratus_backend.Files.Rules.{
  Runs, Runs-pure, Runs-raise, Runs-gets, Runs-if, Runs-bind, Runs-demand, Runs-statement,
  Runs-change, Runs-post, Runs-try, Runs-fact, Caught,
}
use stratus_backend.Files.Count.{
  bit, holds, held, held_by, count-append, count-cons, count-nil, count-map,
}
use stratus_backend.Files.Held.{At, Any, Runs-valid, Runs-file_by_path, Runs-put_file}

-- No blob is held by more rows of `u` than of `t`.
abbrev pub IsLess : Tables → Tables → Type 0
IsLess t u = (k : Bytes) → held k u ≤ held k t

-- What a write says that it took the place of.
abbrev pub gives : Bytes → Bytes → ℕ
gives superseded k = if beq superseded [] then 0 else bit (beq superseded k)

-- `u` is `t` with `f` in the place of a row that held `superseded`.
abbrev pub Replaces : File → Bytes → Tables → Tables → Type 0
Replaces f superseded t u =
    (k : Bytes) → held k u + gives superseded k ≤ held k t + bit (beq f.blob_key k)

gives_le :
    (old : File) (k : Bytes) → gives (if old.is_dir then [] else old.blob_key) k ≤ bit (holds k old)
gives_le old k = elim (Bool-cases old.is_dir) [
  | inl e ↦ rw (e, beq_self []) (omega arith)
  | inr e ↦ elim (Bool-cases (beq old.blob_key [])) [
    | inl f ↦ rw (e, f) (omega arith)
    | inr f ↦ rw (e, f) (omega arith)
  ]
]

-- No more rows hold a blob, and the trash is as it was.
abbrev pub Grows : Tables → Tables → Type 0
Grows t u = (u.trash ≡ t.trash) × IsLess t u

created-Grows : (t u : Tables) (dir : File) → dir.is_dir ≡ true → u ≡ t → Grows t (add_row dir u)
unfolding add_row
created-Grows t u dir d e = (
  ap (λ v. v.trash) e,
  λ k.
      let a = count-append (holds k) t.rows (dir ∷ []) in
      let b = count-cons (holds k) dir [] in
      let c = count-nil (holds k) in
      let z : bit (holds k dir) ≡ 0 = rw d refl in rw e (omega (arith, a, b, c, z)),
)

module _ (env : Env) (t : Tables) where
  pub Runs-require_parent :
      (owner path : Bytes) → Runs (At t) (require_parent env owner path) (λ _. At t) (At t)
  unfolding require_parent
  Runs-require_parent owner path =
      Runs-if (beq (parent_of path) []) _
        (file_by_path env owner (parent_of path) >>= λ f. demand f.is_dir conflict)
        (λ _. Runs-pure _ (λ s p. p))
        (λ _.
          Runs-bind _ _ (Runs-file_by_path env t owner (parent_of path))
            (λ f. Runs-demand f.is_dir conflict (λ _ s p. p.0) (λ s p. p.0)))

  -- What the switch answers holds no more than the row that it found.
  unfoldable pub Displaces : File → Bytes → Session → Type 0
  Displaces f superseded s =
      (s.tables ≡ t)
      × ((k : Bytes) → gives superseded k ≤ held_by k (find_file f.owner f.path t.rows))

  pub Runs-displaced :
      (f : File) (r : Result FilesFault File)
      → Runs
          (Caught (λ old s. (s.tables ≡ t) × (find_file f.owner f.path t.rows ≡ some old)) (At t) r)
          (displaced r)
          (Displaces f)
          Any
  unfolding displaced Displaces
  Runs-displaced f (ok old) = Runs-pure _ (λ s p. (p.0, λ k. rw p.1 (gives_le old k)))
  Runs-displaced f (err not_found) = Runs-pure _ (λ s p. (p, λ k. rw (beq_self []) (omega arith)))
  Runs-displaced f (err conflict) = Runs-raise _ (λ s p. tt)
  Runs-displaced f (err invalid_path) = Runs-raise _ (λ s p. tt)
  Runs-displaced f (err broken) = Runs-raise _ (λ s p. tt)
  Runs-displaced f (err size_mismatch) = Runs-raise _ (λ s p. tt)
  Runs-displaced f (err upload_offset) = Runs-raise _ (λ s p. tt)
  Runs-displaced f (err empty_index) = Runs-raise _ (λ s p. tt)
  Runs-displaced f (err no_space) = Runs-raise _ (λ s p. tt)
  Runs-displaced f (err out_of_fuel) = Runs-raise _ (λ s p. tt)

  -- A write puts the blob of `f` into a row, and says the blob that the row held before.
  pub Runs-replace :
      (f : File) → Runs (At t) (replace env f) (λ answer s. Replaces f answer.1 t s.tables) Any
  unfolding replace Displaces
  Runs-replace f =
      Runs-bind _ _
        (Runs-bind _ _
          (Runs-bind {R = λ _. At t} _ _
            (Runs-post _ Any _ (λ r s p. p) (λ s p. tt) (Runs-require_parent f.owner f.path))
            (λ _. Runs-try Any _ (Runs-file_by_path env t f.owner f.path)))
          (Runs-displaced f))
        (λ superseded. Runs-fact _ _ (λ g.
          Runs-bind {R = λ _ s. Replaces f superseded t s.tables} _ _
            (Runs-post _ Any _ (λ _ s p k. let h = p.1 k in let i = g k in omega (arith, h, i))
              (λ s p. p) (Runs-put_file env t f))
            (λ stored. Runs-pure _ (λ s p. p))))

  Runs-vacant : (old : Option File) → Runs (At t) (vacant old) (λ _. At t) Any
  Runs-vacant none = Runs-pure _ (λ s p. p)
  Runs-vacant (some f) = Runs-raise _ (λ s p. tt)

  pub Runs-create_dir :
      (owner path : Bytes) → Runs (At t) (create_dir env owner path) (λ _ s. Grows t s.tables) Any
  unfolding create_dir
  Runs-create_dir owner path =
      Runs-bind {R = λ _. At t} _ _
        (Runs-bind {R = λ _. At t} _ _
          (Runs-post _ Any _ (λ _ s p. p) (λ s p. tt) (Runs-valid (At t) (validate_path path)))
          (λ _. Runs-post _ Any _ (λ _ s p. p) (λ s p. tt) (Runs-statement env (λ u. u ≡ t))))
        (λ n. Runs-bind {R = λ _. At t} _ _ (Runs-gets _ (λ s p. p)) (λ old.
          Runs-bind {R = λ dir s. (s.tables ≡ t) × (dir.is_dir ≡ true)} _ _
            (Runs-bind {R = λ _. At t} _ _ (Runs-vacant old) (λ _. Runs-gets _ (λ s p. (p, refl))))
            (λ dir.
              Runs-bind {R = λ _ s. Grows t s.tables} _ _
                (Runs-change (λ u. (u ≡ t) × (dir.is_dir ≡ true)) (Grows t) Any _
                  (λ u p. created-Grows t u dir p.1 p.0))
                (λ _. Runs-pure _ (λ s p. p)))))

  -- An UPDATE that changes no blob.
  Runs-update_rows :
      (f : File → File)
      → ((k : Bytes) (r : File) → holds k (f r) ≡ holds k r)
      → Runs (λ s. IsLess t s.tables) (update_rows env f) (λ _ s. IsLess t s.tables) Any
  unfolding update_rows
  Runs-update_rows f h =
      Runs-bind {R = λ _ s. IsLess t s.tables} _ _
        (Runs-bind {R = λ _ s. IsLess t s.tables} _ _
          (Runs-post _ Any _ (λ _ s p. p) (λ s p. tt) (Runs-statement env (IsLess t)))
          (λ _. Runs-gets _ (λ s p. p)))
        (λ fine.
          Runs-bind {R = λ _ s. IsLess t s.tables} _ _ (Runs-demand _ _ (λ _ s p. p) (λ s p. tt))
            (λ _. Runs-change (IsLess t) (IsLess t) Any _ (λ u p k.
              let a = count-map (holds k) f u.rows (h k) in let b = p k in omega (arith, a, b))))

  Runs-move_fault :
      (o : Option MoveFault) → Runs (At t) (move_fault o) (λ _ s. IsLess t s.tables) Any
  Runs-move_fault none = Runs-pure _ (λ s p k. rw p (omega arith))
  Runs-move_fault (some (invalid e)) = Runs-raise _ (λ s p. tt)
  Runs-move_fault (some already_there) = Runs-raise _ (λ s p. tt)
  Runs-move_fault (some inside_itself) = Runs-raise _ (λ s p. tt)

  holds-move_one :
      (owner from to k : Bytes) (r : File) → holds k (move_one owner from to r) ≡ holds k r
  unfolding move_one
  holds-move_one owner from to k r = elim (Bool-cases (at owner from r)) [
    | inl e ↦ rw e refl
    | inr e ↦ rw e refl
  ]

  holds-move_below :
      (owner from to k : Bytes) (r : File) → holds k (move_below env owner from to r) ≡ holds k r
  unfolding move_below
  holds-move_below owner from to k r =
      elim (Bool-cases (beq r.owner owner && env.like r.path (under from))) [
        | inl e ↦ rw e refl
        | inr e ↦ rw e refl
      ]

  pub Runs-move_file :
      (owner from to : Bytes)
      → Runs (At t) (move_file env owner from to) (λ _ s. IsLess t s.tables) Any
  unfolding move_file
  Runs-move_file owner from to =
      Runs-bind {R = λ _ s. IsLess t s.tables} _ _
        (Runs-bind {R = λ _ s. IsLess t s.tables} _ _ (Runs-move_fault (validate_move from to))
          (λ _. Runs-gets _ (λ s p. p)))
        (λ old.
          Runs-bind {R = λ _ s. IsLess t s.tables} _ _
            (Runs-bind {R = λ _ s. IsLess t s.tables} _ _
              (Runs-update_rows (move_one owner from to) (holds-move_one owner from to))
              (λ _.
                Runs-if (is_some old) (pure tt) (statement env >> raise not_found)
                  (λ _. Runs-pure _ (λ s p. p))
                  (λ _.
                    Runs-bind {R = λ _. Any} _ _
                      (Runs-post _ Any _ (λ _ s p. tt) (λ s p. tt) (Runs-statement env (IsLess t)))
                      (λ _. Runs-raise _ (λ s p. p)))))
            (λ _. Runs-update_rows (move_below env owner from to) (holds-move_below owner from to)))
