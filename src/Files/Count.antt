-- ===== src/Files/Count.antt =====
-- How many rows hold a blob, and how many objects and uploads of the store have a key.
use stratus_backend.Prelude.{
  ℕ, ◌+◌, ◌≤◌, ◌≡◌, refl, Bool, true, false, not, ◌&&◌, ◌∷◌, [], List, ◌++◌, Option, none, some,
  arith, map, Bool-cases, inl, inr,
}
use stratus_backend.Prelude.Text.{Bytes, beq}
use stratus_backend.Files.World.{File, Trashed, Object, Part, Tables}
use stratus_backend.Files.Repo.{where_, order_by, insert_by}

abbrev pub bit : Bool → ℕ
bit true = 1
bit false = 0

module _ {A : Type 0} where
  unfoldable pub count : (A → Bool) → List A → ℕ
  count p [] = 0
  count p (x ∷ xs) = bit (p x) + count p xs

  pub count-nil : (p : A → Bool) → count p [] ≡ 0
  unfolding count
  count-nil p = refl

  pub count-cons : (p : A → Bool) (x : A) (xs : List A) → count p (x ∷ xs) ≡ bit (p x) + count p xs
  unfolding count
  count-cons p x xs = refl

  pub count-append : (p : A → Bool) (xs ys : List A) → count p (xs ++ ys) ≡ count p xs + count p ys
  unfolding count
  count-append p [] ys = omega arith
  count-append p (x ∷ xs) ys = omega (arith, count-append p xs ys)

  -- A WHERE and the rows it leaves out are the whole.
  pub count-where :
      (p q : A → Bool) (xs : List A)
      → count p (where_ q xs) + count p (where_ (λ x. not (q x)) xs) ≡ count p xs
  unfolding count where_
  count-where p q [] = refl
  count-where p q (x ∷ xs) =
      let h = count-where p q xs in
      elim (Bool-cases (q x)) [ inl e ↦ rw e (omega (arith, h)) | inr e ↦ rw e (omega (arith, h)) ]

  pub count-where_le : (p q : A → Bool) (xs : List A) → count p (where_ q xs) ≤ count p xs
  count-where_le p q xs = let h = count-where p q xs in omega (arith, h)

  -- Rows that the condition excludes are not in the result.
  pub count-where_none :
      (p q : A → Bool) (xs : List A)
      → ((x : A) → q x ≡ true → p x ≡ false)
      → count p (where_ q xs) ≡ 0
  unfolding count where_
  count-where_none p q [] h = refl
  count-where_none p q (x ∷ xs) h = elim (Bool-cases (q x)) [
    | inl e ↦ rw (e, h x e) (omega (arith, count-where_none p q xs h))
    | inr e ↦ rw e (count-where_none p q xs h)
  ]

  -- Rows that the condition keeps are all in the result.
  pub count-where_all :
      (p q : A → Bool) (xs : List A)
      → ((x : A) → p x ≡ true → q x ≡ true)
      → count p (where_ q xs) ≡ count p xs
  unfolding count where_
  count-where_all p q [] h = refl
  count-where_all p q (x ∷ xs) h = elim (Bool-cases (p x)) [
    | inl e ↦ rw (h x e, e) (omega (arith, count-where_all p q xs h))
    | inr e ↦ elim (Bool-cases (q x)) [
      | inl f ↦ rw (f, e) (omega (arith, count-where_all p q xs h))
      | inr f ↦ rw (f, e) (omega (arith, count-where_all p q xs h))
    ]
  ]

  count-insert_by :
      (before : A → A → Bool) (p : A → Bool) (x : A) (xs : List A)
      → count p (insert_by before x xs) ≡ bit (p x) + count p xs
  unfolding count insert_by
  count-insert_by before p x [] = refl
  count-insert_by before p x (y ∷ ys) =
      let h = count-insert_by before p x ys in
      elim (Bool-cases (before y x)) [
        | inl e ↦ rw e (omega (arith, h))
        | inr e ↦ rw e (omega arith)
      ]

  pub count-order_by :
      (before : A → A → Bool) (p : A → Bool) (xs : List A)
      → count p (order_by before xs) ≡ count p xs
  unfolding count order_by
  count-order_by before p [] = refl
  count-order_by before p (x ∷ xs) =
      let h = count-order_by before p xs in
      let g = count-insert_by before p x (order_by before xs) in omega (arith, g, h)

  pub count-map :
      (p : A → Bool) (f : A → A) (xs : List A)
      → ((x : A) → p (f x) ≡ p x)
      → count p (map f xs) ≡ count p xs
  unfolding count
  count-map p f [] h = refl
  count-map p f (x ∷ xs) h = rw (h x, count-map p f xs h)

-- A row that holds the blob `k`.
abbrev pub holds : Bytes → File → Bool
holds k f = not f.is_dir && beq f.blob_key k

abbrev pub holds_trashed : Bytes → Trashed → Bool
holds_trashed k t = holds k t.file

abbrev pub held : Bytes → Tables → ℕ
held k t = count (holds k) t.rows + count (holds_trashed k) t.trash

abbrev pub has_key : Bytes → Object → Bool
has_key k o = beq o.key k

abbrev pub present : Bytes → List Object → ℕ
present k os = count (has_key k) os

abbrev pub started : Bytes → List Part → ℕ
started k ps = count (λ p. beq p.key k) ps

-- What the row that a lookup found holds.
abbrev pub held_by : Bytes → Option File → ℕ
held_by k none = 0
held_by k (some f) = bit (holds k f)
