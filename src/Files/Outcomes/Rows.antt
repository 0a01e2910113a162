-- ===== src/Files/Outcomes/Rows.antt =====
-- What a lookup finds after PutFile, and after a blob is deleted.
use stratus_backend.Prelude.{
  ℕ, ◌≤◌, ◌≡◌, refl, true, false, List, [], ◌∷◌, ◌++◌, Option, none, some, inl, inr, Bool-cases,
  arith,
}
use stratus_backend.Prelude.Text.{Bytes, beq, beq_self, beq_sound}
use stratus_backend.Db.Path.{validate_path}
use stratus_backend.Files.World.{Env, File, Object, Tables}
use stratus_backend.Files.Repo.{
  at, where_, find_file, updated, inserted, replace_row, add_row, upserted, put_file,
}
use stratus_backend.Files.Store.{find_object, without_object}
use stratus_backend.Files.Service.{replace}
use stratus_backend.Files.Rules.{
  Runs, Runs-pure, Runs-gets, Runs-bind, Runs-demand, Runs-change, Runs-post, Runs-fact, Runs-try,
}
use stratus_backend.Files.Count.{held}
use stratus_backend.Files.Held.{At, Any, Runs-look_up, Runs-file_by_path}
use stratus_backend.Files.Sound.Stored.{beq_sym}
use stratus_backend.Files.Held.Rows.{count-delete}
use stratus_backend.Files.Held.Tree.{gives, Displaces, Runs-displaced, Runs-require_parent}

-- The row at the path of `f` describes the same content as `f`.
pub record HasRow (f : File) (rows : List File) : Type 0 where
  pub row : File
  pub found : find_file f.owner f.path rows ≡ some row
  pub same_key : row.blob_key ≡ f.blob_key
  pub same_size : row.size ≡ f.size
  pub same_etag : row.etag ≡ f.etag

-- The store has an object of the key with the content.
pub record HasBlob (key content : Bytes) (os : List Object) : Type 0 where
  pub object : Object
  pub found : find_object key os ≡ some object
  pub same : object.content ≡ content

replaced-HasRow :
    (f old : File) (rows : List File)
    → find_file f.owner f.path rows ≡ some old
    → HasRow f (replace_row f rows)
unfolding find_file replace_row
replaced-HasRow f old [] h = ground (arith, h)
replaced-HasRow f old (x ∷ xs) h = elim (Bool-cases (at f.owner f.path x)) [
  | inl e ↦ record {
    row = updated f x;
    found = rw e (rw e refl);
    same_key = refl;
    same_size = refl;
    same_etag = refl;
  }
  | inr e ↦
      let r = replaced-HasRow f old xs (rw e at h) in
      record {
        row = r.row;
        found = rw e (rw e r.found);
        same_key = r.same_key;
        same_size = r.same_size;
        same_etag = r.same_etag;
      }
]

inserted_found :
    (f : File) (n : ℕ) (rows : List File)
    → find_file f.owner f.path rows ≡ none
    → find_file f.owner f.path (rows ++ inserted f n ∷ []) ≡ some (inserted f n)
unfolding find_file
inserted_found f n [] h = rw (beq_self f.owner, beq_self f.path) refl
inserted_found f n (x ∷ xs) h = elim (Bool-cases (at f.owner f.path x)) [
  | inl e ↦ let g : some x ≡ none = rw e at h in ground (arith, g)
  | inr e ↦ rw e (inserted_found f n xs (rw e at h))
]

other_kept : (a key d : Bytes) → beq d key ≡ false → beq a key ≡ true → beq a d ≡ false
other_kept a key d e h = rw (beq_sound a key h, beq_sym key d, e) refl

found_without :
    (key d : Bytes) (object : Object) (os : List Object)
    → beq d key ≡ false
    → find_object key os ≡ some object
    → find_object key (without_object d os) ≡ some object
unfolding find_object where_
found_without key d object [] e h = ground (arith, h)
found_without key d object (o ∷ os) e h = elim (Bool-cases (beq o.key key)) [
  | inl f ↦ let g : some o ≡ some object = rw f at h in rw (other_kept o.key key d e f) (rw f g)
  | inr f ↦
      let g = found_without key d object os e (rw f at h) in
      elim (Bool-cases (beq o.key d)) [ inl i ↦ rw i g | inr i ↦ rw i (rw f g) ]
]

-- Deleting another key leaves a blob.
pub HasBlob-without :
    (key d content : Bytes) (os : List Object)
    → beq d key ≡ false
    → HasBlob key content os
    → HasBlob key content (without_object d os)
HasBlob-without key d content os e b = record {
  object = b.object;
  found = found_without key d b.object os e b.found;
  same = b.same;
}

module _ (env : Env) (t : Tables) where
  put_file-HasRow : (f : File) → Runs (At t) (put_file env f) (λ _ s. HasRow f s.tables.rows) Any
  unfolding put_file upserted add_row
  put_file-HasRow f =
      Runs-bind _ _
        (Runs-post _ Any _ (λ r s p. p) (λ s p. tt)
          (Runs-look_up env t (validate_path f.path) f.owner f.path))
        put
    where
      put :
          (r : Option File)
          → Runs
              (λ s. (s.tables ≡ t) × (find_file f.owner f.path t.rows ≡ r))
              (upserted f r)
              (λ _ s. HasRow f s.tables.rows)
              Any
      put none =
          Runs-bind {R = λ _ s. (s.tables ≡ t) × (find_file f.owner f.path t.rows ≡ none)} _ _
            (Runs-gets _ (λ s p. p))
            (λ n.
              Runs-bind {R = λ _ s. HasRow f s.tables.rows} _ _
                (Runs-change (λ u. (u ≡ t) × (find_file f.owner f.path t.rows ≡ none))
                  (λ u. HasRow f u.rows) Any _
                  (λ u p. record {
                    row = inserted f u.next_id;
                    found = rw p.0 (inserted_found f t.next_id t.rows p.1);
                    same_key = refl;
                    same_size = refl;
                    same_etag = refl;
                  }))
                (λ _. Runs-pure _ (λ s p. p)))
      put (some old) =
          Runs-bind {R = λ _ s. HasRow f s.tables.rows} _ _
            (Runs-bind {R = λ _ s. (s.tables ≡ t) × (find_file f.owner f.path t.rows ≡ some old)} _
              _ (Runs-demand _ _ (λ d s p. p) (λ s p. tt))
              (λ _.
                Runs-change (λ u. (u ≡ t) × (find_file f.owner f.path t.rows ≡ some old))
                  (λ u. HasRow f u.rows) Any _ (λ u p. rw p.0 (replaced-HasRow f old t.rows p.1))))
            (λ _. Runs-pure _ (λ s p. p))

  -- What a write displaces was held, and the row at its path is its own afterwards.
  pub replace-HasRow :
      (f : File)
      → Runs
          (At t)
          (replace env f)
          (λ answer s. HasRow f s.tables.rows × ((k : Bytes) → gives answer.1 k ≤ held k t))
          Any
  unfolding replace Displaces
  replace-HasRow f =
      Runs-bind _ _
        (Runs-bind _ _
          (Runs-bind {R = λ _. At t} _ _
            (Runs-post _ Any _ (λ r s p. p) (λ s p. tt) (Runs-require_parent env t f.owner f.path))
            (λ _. Runs-try Any _ (Runs-file_by_path env t f.owner f.path)))
          (Runs-displaced env t f))
        (λ superseded. Runs-fact _ _ (λ g.
          Runs-bind
            {R = λ _ s. HasRow f s.tables.rows × ((k : Bytes) → gives superseded k ≤ held k t)} _ _
            (Runs-post _ Any _
              (λ _ s p. (
                p,
                λ k.
                    let a = g k in
                    let b = count-delete k f.owner f.path t.rows in omega (arith, a, b),
              ))
              (λ s p. p) (put_file-HasRow f))
            (λ stored. Runs-pure _ (λ s p. p))))
