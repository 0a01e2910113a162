-- ===== src/Files/Held/Bin.antt =====
-- What the trash and what comes back from it do to the rows that hold a blob.
use stratus_backend.Prelude.{◌+◌, ◌≤◌, ◌≡◌, refl, ap, ◌∙◌, false, not, List, [], ◌∷◌, ◌++◌, arith}
use stratus_backend.Prelude.Int.{ℤ}
use stratus_backend.Prelude.Text.{Bytes, beq}
use stratus_backend.Files.World.{Env, File, Trashed, Tables}
use stratus_backend.Files.Action.{◌>>=◌, ◌>>◌, pure}
use stratus_backend.Files.Repo.{where_, create_dir, put_file}
use stratus_backend.Files.Repo.Trash.{in_batch, by_path, trash_rows, trashed_in, delete_trash}
use stratus_backend.Files.Trash.{put_back, trim_prefix, forget_batch}
use stratus_backend.Files.Rules.{
  Runs, Runs-pure, Runs-gets, Runs-if, Runs-bind, Runs-statement, Runs-change, Runs-post, Runs-fact,
  Runs-at,
}
use stratus_backend.Files.Count.{
  bit, count, holds, holds_trashed, held, count-append, count-cons, count-nil, count-where,
  count-order_by,
}
use stratus_backend.Files.Held.{At, Any, Runs-put_file}
use stratus_backend.Files.Held.Tree.{IsLess, Runs-create_dir}

-- `u` is `t` with `rows` at most.
abbrev pub IsWith : Tables → List File → Tables → Type 0
IsWith t rows u = (k : Bytes) → held k u ≤ held k t + count (holds k) rows

-- The rows of a deletion, as `t` holds them.
abbrev pub IsBatch : Bytes → Bytes → Tables → List Trashed → Type 0
IsBatch owner batch t rows =
    (k : Bytes)
    → count (holds_trashed k) rows ≡ count (holds_trashed k) (where_ (in_batch owner batch) t.trash)

-- `u` is `t` with the rows put back at most, and the trash as it was.
abbrev pub IsRestored : Tables → List Trashed → Tables → Type 0
IsRestored t rows u =
    (u.trash ≡ t.trash) × ((k : Bytes) → held k u ≤ held k t + count (holds_trashed k) rows)

trashed-IsWith :
    (t : Tables) (f : File) (entry : Trashed) (fs : List File)
    → entry.file ≡ f
    → IsWith t (f ∷ []) (record t { trash = t.trash ++ entry ∷ [] })
trashed-IsWith t f entry fs e k =
    let a = count-append (holds_trashed k) t.trash (entry ∷ []) in
    let b = count-cons (holds_trashed k) entry [] in
    let c = count-cons (holds k) f [] in
    let d = count-nil (holds_trashed k) in
    let z : bit (holds_trashed k entry) ≡ bit (holds k f) = rw e refl in
    omega (arith, a, b, c, d, z)

file_back :
    (t : Tables) (x : Trashed) (u : Tables)
    → x.file.is_dir ≡ false
    → (u.trash ≡ t.trash) × ((k : Bytes) → held k u ≤ held k t + bit (beq x.file.blob_key k))
    → IsRestored t (x ∷ []) u
file_back t x u e p = (
  p.0,
  λ k.
      let a = p.1 k in
      let b = count-cons (holds_trashed k) x [] in
      let c = count-nil (holds_trashed k) in
      let z : bit (holds_trashed k x) ≡ bit (beq x.file.blob_key k) = simp e refl in
      omega (arith, a, b, c, z),
)

both_back :
    (t : Tables) (x : Trashed) (xs : List Trashed) (u v : Tables)
    → IsRestored t (x ∷ []) u
    → IsRestored u xs v
    → IsRestored t (x ∷ xs) v
both_back t x xs u v p q = (
  q.0 ∙ p.0,
  λ k.
      let a = p.1 k in
      let b = q.1 k in
      let c = count-cons (holds_trashed k) x [] in
      let d = count-nil (holds_trashed k) in
      let e = count-cons (holds_trashed k) x xs in omega (arith, a, b, c, d, e),
)

-- A deletion whose rows are back gives up their blobs in the trash.
pub restored-IsLess :
    (t u : Tables) (owner batch : Bytes) (rows : List Trashed)
    → IsBatch owner batch t rows
    → IsRestored t rows u
    → IsLess t (record u { trash = where_ (λ x. not (in_batch owner batch x)) u.trash })
restored-IsLess t u owner batch rows same back k =
    let a = count-where (holds_trashed k) (in_batch owner batch) u.trash in
    let b : count (holds_trashed k) rows
        ≡ count (holds_trashed k) (where_ (in_batch owner batch) u.trash) =
      rw back.0 (same k) in
    let c = back.1 k in omega (arith, a, b, c)

module _ (env : Env) where
  -- Rows that go to the trash, also when not all of them do.
  pub Runs-trash_rows :
      (t : Tables) (batch : Bytes) (rows : List File) (deleted_at : ℤ)
      → Runs
          (At t)
          (trash_rows env batch rows deleted_at)
          (λ _ s. IsWith t rows s.tables)
          (λ s. IsWith t rows s.tables)
  unfolding trash_rows
  Runs-trash_rows t batch [] deleted_at = Runs-pure _ (λ s p k. rw p (omega arith))
  Runs-trash_rows t batch (f ∷ fs) deleted_at =
      Runs-bind {R = λ _ s. IsWith t (f ∷ []) s.tables} _ _
        (Runs-bind {R = λ _. At t} _ _
          (Runs-post _ (λ s. IsWith t (f ∷ fs) s.tables) _ (λ _ s p. p)
            (λ s p k. rw p (omega arith)) (Runs-statement env (λ u. u ≡ t)))
          (λ _.
            Runs-change (λ u. u ≡ t) (IsWith t (f ∷ [])) _ _
              (λ u p. rw p (
                trashed-IsWith t f (record { batch = batch; file = f; deleted_at = deleted_at }) fs
                  refl))))
        (λ _. Runs-at _ (λ u w.
          Runs-post _ _ _ (λ _ s p. later u s.tables w p) (λ s p. later u s.tables w p)
            (Runs-trash_rows u batch fs deleted_at)))
    where
      later : (u v : Tables) → IsWith t (f ∷ []) u → IsWith u fs v → IsWith t (f ∷ fs) v
      later u v w p k =
          let a = count-cons (holds k) f [] in
          let b = count-cons (holds k) f fs in
          let c = count-nil (holds k) in let d = w k in let e = p k in omega (arith, a, b, c, d, e)

  pub Runs-trashed_in :
      (t : Tables) (owner batch : Bytes)
      → Runs
          (At t)
          (trashed_in env owner batch)
          (λ rows s. (s.tables ≡ t) × IsBatch owner batch t rows)
          Any
  unfolding trashed_in
  Runs-trashed_in t owner batch =
      Runs-bind {R = λ _. At t} _ _
        (Runs-post _ Any _ (λ _ s p. p) (λ s p. tt) (Runs-statement env (λ u. u ≡ t)))
        (λ _. Runs-gets _ (λ s p. (p, λ k. rw p (count-order_by by_path (holds_trashed k) _))))

  pub Runs-delete_trash :
      (P Q : Tables → Type 0) (owner batch : Bytes)
      → ((u : Tables)
          → P u
          → Q (record u { trash = where_ (λ x. not (in_batch owner batch x)) u.trash }))
      → Runs (λ s. P s.tables) (delete_trash env owner batch) (λ _ s. Q s.tables) Any
  unfolding delete_trash
  Runs-delete_trash P Q owner batch h =
      Runs-bind {R = λ _ s. P s.tables} _ _
        (Runs-post _ Any _ (λ _ s p. p) (λ s p. tt) (Runs-statement env P))
        (λ _. Runs-change P Q Any _ h)

  pub Runs-forget_batch :
      (t : Tables) (owner batch : Bytes)
      → Runs
          (At t)
          (forget_batch env owner batch)
          (λ rows s. (k : Bytes) → held k s.tables + count (holds_trashed k) rows ≤ held k t)
          Any
  unfolding forget_batch
  Runs-forget_batch t owner batch = Runs-bind _ _ (Runs-trashed_in t owner batch) (λ rows.
      Runs-fact _ _ (λ same.
        Runs-bind
          {R = λ _ s. (k : Bytes) → held k s.tables + count (holds_trashed k) rows ≤ held k t} _ _
          (Runs-delete_trash (λ u. u ≡ t)
            (λ u. (k : Bytes) → held k u + count (holds_trashed k) rows ≤ held k t) owner batch
            (λ u p k. rw p (
              let a = count-where (holds_trashed k) (in_batch owner batch) t.trash in
              let b = same k in omega (arith, a, b))))
          (λ _. Runs-pure _ (λ s p. p))))

  pub Runs-put_back :
      (t : Tables) (owner from to : Bytes) (rows : List Trashed)
      → Runs (At t) (put_back env owner from to rows) (λ _ s. IsRestored t rows s.tables) Any
  unfolding put_back
  Runs-put_back t owner from to [] =
      Runs-pure _ (λ s p. (ap (λ v. v.trash) p, λ k. rw p (omega arith)))
  Runs-put_back t owner from to (x ∷ xs) =
      Runs-bind {R = λ _ s. IsRestored t (x ∷ []) s.tables} _ _
        (Runs-if x.file.is_dir
          (create_dir env owner (to ++ trim_prefix x.file.path from) >> pure [])
          (put_file env (record x.file { id = 0; path = to ++ trim_prefix x.file.path from })
            >>= λ f. pure (f ∷ []))
          (λ e.
            Runs-bind _ _ (Runs-create_dir env t owner (to ++ trim_prefix x.file.path from))
              (λ _. Runs-pure _ (λ s p. (p.0, λ k. let a = p.1 k in omega (arith, a)))))
          (λ e.
            Runs-bind _ _
              (Runs-put_file env t
                (record x.file { id = 0; path = to ++ trim_prefix x.file.path from }))
              (λ f.
                Runs-pure _
                  (λ s p. file_back t x s.tables e (p.0, λ k. let a = p.1 k in omega (arith, a))))))
        (λ head. Runs-at _ (λ u w.
          Runs-bind {R = λ _ s. IsRestored t (x ∷ xs) s.tables} _ _
            (Runs-post _ Any _ (λ _ s p. both_back t x xs u s.tables w p) (λ s p. p)
              (Runs-put_back u owner from to xs))
            (λ rest. Runs-pure _ (λ s p. p))))
