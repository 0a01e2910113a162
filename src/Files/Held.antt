-- ===== src/Files/Held.antt =====
-- What the statements on the tables do to the number of rows that hold a blob.
pub mod Rows
pub mod Tree
pub mod Bin
pub mod Restored
pub mod Removed
use stratus_backend.Prelude.{
  ℕ, suc, ◌+◌, ◌≤◌, ◌≡◌, refl, sym, ap, ◌∙◌, Bool, true, false, not, ◌&&◌, List, [], ◌∷◌, ◌++◌, map,
  Option, none, some, inl, inr, Bool-cases, arith, if◌then◌else◌,
}
use stratus_backend.Prelude.Text.{Bytes, beq}
use stratus_backend.Db.Path.{PathFault, validate_path}
use stratus_backend.Files.World.{Env, File, Tables, not_found, conflict}
use stratus_backend.Files.Action.{
  Action, Session, ◌>>=◌, ◌>>◌, pure, gets, demand, statement, change_tables,
}
use stratus_backend.Files.Repo.{
  valid, or_not_found, look_up, find_file, file_by_path, upserted, put_file, replace_row, add_row,
  inserted,
}
use stratus_backend.Files.Rules.{
  Runs, Runs-pure, Runs-raise, Runs-gets, Runs-bind, Runs-demand, Runs-statement, Runs-change,
  Runs-post,
}
use stratus_backend.Files.Count.{
  bit, count, holds, held, held_by, count-append, count-cons, count-nil,
}
use stratus_backend.Files.Held.Rows.{count-replace_row}

-- The tables of a session are `t`.
abbrev pub At : Tables → Session → Type 0
At t s = s.tables ≡ t

-- A state in which nothing is known, of a transaction that fails.
abbrev pub Any : Session → Type 0
Any s = Unit {0}

pub Runs-valid : {S : Type 0} (P : S → Type 0) (o : Option PathFault) → Runs P (valid o) (λ _. P) P
Runs-valid P none = Runs-pure tt (λ s p. p)
Runs-valid P (some e) = Runs-raise _ (λ s p. p)

-- PutFile of `f` on `t` gives `u`: the row at the path gives up its blob for that of `f`.
abbrev pub Puts : File → Tables → Tables → Type 0
Puts f t u =
    (u.trash ≡ t.trash)
    × ((k : Bytes)
        → held k u + held_by k (find_file f.owner f.path t.rows)
          ≤ held k t + bit (beq f.blob_key k))

inserted-Puts :
    (f : File) (t u : Tables)
    → find_file f.owner f.path t.rows ≡ none
    → u ≡ t
    → Puts f t (add_row (inserted f u.next_id) u)
unfolding add_row
inserted-Puts f t u n e = (
  ap (λ v. v.trash) e,
  λ k.
      let a = count-append (holds k) t.rows (inserted f t.next_id ∷ []) in
      let b = count-cons (holds k) (inserted f t.next_id) [] in
      let c = count-nil (holds k) in rw (e, n) (omega (arith, a, b, c)),
)

updated-Puts :
    (f old : File) (t u : Tables)
    → find_file f.owner f.path t.rows ≡ some old
    → old.is_dir ≡ false
    → u ≡ t
    → Puts f t (record u { rows = replace_row f u.rows })
updated-Puts f old t u h d e =
    (ap (λ v. v.trash) e, λ k. rw (e, h) (omega (arith, count-replace_row k f old t.rows h d)))

pub not-true : (b : Bool) → not b ≡ true → b ≡ false
not-true true h = sym h
not-true false h = refl

module _ (env : Env) (t : Tables) where
  -- What finds the row at a path.
  pub Runs-look_up :
      (o : Option PathFault) (owner path : Bytes)
      → Runs
          (At t)
          (valid o >> statement env >> gets (look_up owner path))
          (λ r s. (s.tables ≡ t) × (find_file owner path t.rows ≡ r))
          (At t)
  Runs-look_up o owner path =
      Runs-bind {R = λ _. At t} _ _
        (Runs-bind {R = λ _. At t} _ _ (Runs-valid (At t) o) (λ _. Runs-statement env (λ u. u ≡ t)))
        (λ _.
          Runs-gets (look_up owner path)
            (λ s p. (p, sym (ap (λ u. find_file owner path u.rows) p))))

  -- A lookup changes nothing, and answers with the row that it finds.
  pub Runs-file_by_path :
      (owner path : Bytes)
      → Runs
          (At t)
          (file_by_path env owner path)
          (λ f s. (s.tables ≡ t) × (find_file owner path t.rows ≡ some f))
          (At t)
  unfolding file_by_path
  Runs-file_by_path owner path = Runs-bind _ _ (Runs-look_up (validate_path path) owner path) found
    where
      found :
          (r : Option File)
          → Runs
              (λ s. (s.tables ≡ t) × (find_file owner path t.rows ≡ r))
              (or_not_found r)
              (λ f s. (s.tables ≡ t) × (find_file owner path t.rows ≡ some f))
              (At t)
      found none = Runs-raise _ (λ s p. p.0)
      found (some f) = Runs-pure f (λ s p. p)

  pub Runs-put_file : (f : File) → Runs (At t) (put_file env f) (λ _ s. Puts f t s.tables) Any
  unfolding put_file upserted
  Runs-put_file f =
      Runs-bind _ _
        (Runs-post _ Any _ (λ r s p. p) (λ s p. tt)
          (Runs-look_up (validate_path f.path) f.owner f.path))
        put
    where
      put :
          (r : Option File)
          → Runs
              (λ s. (s.tables ≡ t) × (find_file f.owner f.path t.rows ≡ r))
              (upserted f r)
              (λ _ s. Puts f t s.tables)
              Any
      put none =
          Runs-bind {R = λ _ s. (s.tables ≡ t) × (find_file f.owner f.path t.rows ≡ none)} _ _
            (Runs-gets _ (λ s p. p))
            (λ n.
              Runs-bind {R = λ _ s. Puts f t s.tables} _ _
                (Runs-change (λ u. (u ≡ t) × (find_file f.owner f.path t.rows ≡ none))
                  (λ u. Puts f t u) Any _ (λ u p. inserted-Puts f t u p.1 p.0))
                (λ _. Runs-pure _ (λ s p. p)))
      put (some old) =
          Runs-bind {R = λ _ s. Puts f t s.tables} _ _
            (Runs-bind
              {R = λ _ s.
                (s.tables ≡ t)
                × (find_file f.owner f.path t.rows ≡ some old)
                × (old.is_dir ≡ false)}
              _ _ (Runs-demand _ _ (λ d s p. (p.0, p.1, not-true old.is_dir d)) (λ s p. tt))
              (λ _.
                Runs-change
                  (λ u.
                    (u ≡ t) × (find_file f.owner f.path t.rows ≡ some old) × (old.is_dir ≡ false))
                  (λ u. Puts f t u) Any _ (λ u p. updated-Puts f old t u p.1 p.2 p.0)))
            (λ _. Runs-pure _ (λ s p. p))
