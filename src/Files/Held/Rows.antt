-- ===== src/Files/Held/Rows.antt =====
-- The rows that hold a blob, when a list of rows changes.
use stratus_backend.Prelude.{
  ◌+◌, ◌≤◌, ◌≡◌, refl, false, not, List, [], ◌∷◌, some, inl, inr, Bool-cases, arith,
}
use stratus_backend.Prelude.Text.{Bytes, beq}
use stratus_backend.Files.World.{File}
use stratus_backend.Files.Repo.{at, updated, find_file, replace_row, where_}
use stratus_backend.Files.Count.{bit, count, count-where_le, holds, held_by}

-- A row that is replaced gives up its blob and takes the new one.
pub count-replace_row :
    (k : Bytes) (f old : File) (rows : List File)
    → find_file f.owner f.path rows ≡ some old
    → old.is_dir ≡ false
    → count (holds k) (replace_row f rows) + bit (holds k old)
      ≡ count (holds k) rows + bit (beq f.blob_key k)
unfolding count find_file replace_row
count-replace_row k f old [] h e = ground (arith, h)
count-replace_row k f old (x ∷ xs) h e = elim (Bool-cases (at f.owner f.path x)) [
  | inl i ↦
      let h' : some x ≡ some old = rw i at h in
      let q : x ≡ old = ground (arith, h') in
      let d : x.is_dir ≡ false = rw q e in
      let b : bit (holds k old) ≡ bit (holds k x) = rw q refl in
      let c : bit (holds k (updated f x)) ≡ bit (beq f.blob_key k) = rw d refl in
      rw i (omega (arith, b, c))
  | inr i ↦
      let h' : find_file f.owner f.path xs ≡ some old = rw i at h in
      rw i (omega (arith, count-replace_row k f old xs h' e))
]

-- A row that is deleted gives up its blob.
pub count-delete :
    (k owner path : Bytes) (rows : List File)
    → count (holds k) (where_ (λ f. not (at owner path f)) rows)
        + held_by k (find_file owner path rows)
      ≤ count (holds k) rows
unfolding count where_ find_file
count-delete k owner path [] = omega arith
count-delete k owner path (x ∷ xs) =
    let h = count-delete k owner path xs in
    elim (Bool-cases (at owner path x)) [
      | inl i ↦ rw i (omega (arith, count-where_le (holds k) (λ f. not (at owner path f)) xs))
      | inr i ↦ rw i (omega (arith, h))
    ]
