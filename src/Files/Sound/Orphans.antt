-- ===== src/Files/Sound/Orphans.antt =====
-- What the sweep reads, and which objects it may move to the trash.
use stratus_backend.Prelude.{
  ◌+◌, ◌≤◌, ◌≡◌, refl, sym, ap, ◌∙◌, true, false, not, ◌||◌, List, [], ◌∷◌, ◌++◌, map, Option, none,
  some, inl, inr, Bool-cases, or_false, subst, ◌⊎◌, arith, All,
}
use stratus_backend.Prelude.Int.{ℤ}
use stratus_backend.Prelude.Text.{Bytes, beq, beq_sound, has_prefix, cut_prefix}
use stratus_backend.Files.World.{File, Trashed, Object, Part, Tables, World}
use stratus_backend.Files.Key.{is_one_of, parent_of_key, derived_prefix}
use stratus_backend.Files.Repo.{where_}
use stratus_backend.Files.Collect.{is_old, is_scanned, is_orphan, is_derived, orphan_row, rows_of}
use stratus_backend.Files.Rules.Calls.{About, Known}
use stratus_backend.Files.Count.{
  bit, count, count-cons, count-where_le, count-where_none, holds, holds_trashed, held, has_key,
  present,
}
use stratus_backend.Db.Path.{cut_last}
use stratus_backend.Files.Held.{not-true}
use stratus_backend.Files.Held.Bin.{IsWith}
use stratus_backend.Files.Sound.{IsSound}
use stratus_backend.Files.Sound.Blobs.{absurd_bool}
use stratus_backend.Files.Sound.Calls.{Sound}

-- The keys that rows and trash name are among those read.
unfoldable pub IsRead : List Bytes → About
IsRead keys t os ps = IsSound t os ps × ((k : Bytes) → is_one_of keys k ≡ false → held k t ≡ 0)

pub is_one_of-append :
    (xs ys : List Bytes) (k : Bytes) → is_one_of (xs ++ ys) k ≡ is_one_of xs k || is_one_of ys k
unfolding is_one_of
is_one_of-append [] ys k = refl
is_one_of-append (x ∷ xs) ys k = ground (arith, is_one_of-append xs ys k)

-- A key that no row of a list names is held by none.
pub unread_row :
    (fs : List File) (k : Bytes)
    → is_one_of (map (λ f. f.blob_key) (where_ (λ f. not f.is_dir) fs)) k ≡ false
    → count (holds k) fs ≡ 0
unfolding is_one_of where_ count
unread_row [] k h = refl
unread_row (f ∷ fs) k h =
    let a = count-cons (holds k) f fs in
    elim (Bool-cases f.is_dir) [
      | inl e ↦
          let b = unread_row fs k (simp e at h) in
          let z : bit (holds k f) ≡ 0 = simp e refl in omega (arith, b, z)
      | inr e ↦
          let g = or_false (beq f.blob_key k) _ (simp e at h) in
          let b = unread_row fs k g.1 in
          let z : bit (holds k f) ≡ 0 = simp (e, g.0) refl in omega (arith, b, z)
    ]

-- Orphans are no more than the objects of their key, and none of a key that is read.
pub count-rows_of : (k : Bytes) (os : List Object) → count (holds k) (rows_of os) ≡ present k os
unfolding rows_of orphan_row count
count-rows_of k [] = refl
count-rows_of k (o ∷ os) = ap (λ n. bit (beq o.key k) + n) (count-rows_of k os)

pub unread_trashed :
    (ts : List Trashed) (k : Bytes)
    → is_one_of (map (λ t. t.file.blob_key) (where_ (λ t. not t.file.is_dir) ts)) k ≡ false
    → count (holds_trashed k) ts ≡ 0
unfolding is_one_of where_ count
unread_trashed [] k h = refl
unread_trashed (t ∷ ts) k h = elim (Bool-cases t.file.is_dir) [
  | inl e ↦
      let b = unread_trashed ts k (simp e at h) in
      let z : bit (holds_trashed k t) ≡ 0 = simp e refl in omega (arith, b, z)
  | inr e ↦
      let g = or_false (beq t.file.blob_key k) _ (simp e at h) in
      let b = unread_trashed ts k g.1 in
      let z : bit (holds_trashed k t) ≡ 0 = simp (e, g.0) refl in omega (arith, b, z)
]

-- Objects that may go to the trash: no row names them, and none of them is derived.
unfoldable pub MayBeTrashed : List Object → About
MayBeTrashed orphans t os ps =
    IsSound t os ps
    × ((k : Bytes) → held k t + present k orphans ≤ present k os)
    × ((k : Bytes) → has_prefix k derived_prefix ≡ true → present k orphans ≡ 0)

pub Option-cases : {A : Type 0} (r : Option A) → (r ≡ none) ⊎ ((a : A) × (r ≡ some a))
Option-cases none = inl refl
Option-cases (some a) = inr (a, refl)

-- A key with no parent is not derived, and one with a parent is.
pub parent_none : (key : Bytes) → parent_of_key key ≡ none → has_prefix key derived_prefix ≡ false
unfolding parent_of_key cut_prefix
parent_none key h = elim (Option-cases (cut_prefix key derived_prefix)) [
  | inl e ↦ rw e refl
  | inr (rest, e) ↦ elim (Option-cases (cut_last rest b'/')) [
    | inl f ↦ let g : some [] ≡ none = rw (e, f) at h in ground (arith, g)
    | inr (parts, f) ↦ let g : some parts.0 ≡ none = rw (e, f) at h in ground (arith, g)
  ]
]

pub parent_some :
    (key parent : Bytes) → parent_of_key key ≡ some parent → has_prefix key derived_prefix ≡ true
unfolding parent_of_key cut_prefix
parent_some key parent h = elim (Option-cases (cut_prefix key derived_prefix)) [
  | inl e ↦ let g : none ≡ some parent = rw e at h in ground (arith, g)
  | inr (rest, e) ↦ rw e refl
]

pub orphan_none :
    (keys : List Bytes) (o : Object)
    → is_orphan keys o ≡ true
    → (has_prefix o.key derived_prefix ≡ false) × (is_one_of keys o.key ≡ false)
unfolding is_orphan parent_of_key cut_prefix
orphan_none keys o h = elim (Option-cases (parent_of_key o.key)) [
  | inl e ↦ (parent_none o.key e, not-true (is_one_of keys o.key) (simp e at h))
  | inr (p, e) ↦ let g : false ≡ true = simp e at h in ground (arith, g)
]

pub orphan_unread :
    (keys : List Bytes) (k : Bytes) (o : Object)
    → is_one_of keys k ≡ true
    → is_orphan keys o ≡ true
    → has_key k o ≡ false
orphan_unread keys k o e h = elim (Bool-cases (has_key k o)) [
  | inl f ↦
      absurd_bool e
        (subst (λ k'. is_one_of keys k' ≡ false) (beq_sound o.key k f) (orphan_none keys o h).1)
  | inr f ↦ f
]

pub orphan_original :
    (keys : List Bytes) (k : Bytes) (o : Object)
    → has_prefix k derived_prefix ≡ true
    → is_orphan keys o ≡ true
    → has_key k o ≡ false
orphan_original keys k o e h = elim (Bool-cases (has_key k o)) [
  | inl f ↦ absurd_bool e (
      subst (λ k'. has_prefix k' derived_prefix ≡ false) (beq_sound o.key k f)
        (orphan_none keys o h).0)
  | inr f ↦ f
]

pub derived_key-prefix : (o : Object) → is_derived o ≡ true → has_prefix o.key derived_prefix ≡ true
unfolding is_derived parent_of_key cut_prefix
derived_key-prefix o h = elim (Option-cases (parent_of_key o.key)) [
  | inl e ↦ let g : false ≡ true = simp e at h in ground (arith, g)
  | inr (p, e) ↦ parent_some o.key p e
]

-- Objects that are all derived.
unfoldable pub AreDerived : List Object → Type 0
AreDerived os = All (λ o. has_prefix o.key derived_prefix ≡ true) os

pub where_-AreDerived : (os : List Object) → AreDerived (where_ is_derived os)
unfolding where_ AreDerived
where_-AreDerived [] = tt
where_-AreDerived (o ∷ os) = elim (Bool-cases (is_derived o)) [
  | inl e ↦ rw e (derived_key-prefix o e, where_-AreDerived os)
  | inr e ↦ rw e (where_-AreDerived os)
]

-- A listing of the store holds no key more often than the store.
unfoldable pub IsListing : List Object → List Object → Type 0
IsListing listing os = (k : Bytes) → present k listing ≤ present k os

pub trashable :
    (keys : List Bytes) (moment age : ℤ) (listing : List Object) (t : Tables) (os : List Object)
    (ps : List Part)
    → IsRead keys t os ps
    → IsListing listing os
    → MayBeTrashed
        (where_ (is_orphan keys) (where_ (is_old moment age) (where_ is_scanned listing)))
        t
        os
        ps
unfolding IsRead MayBeTrashed IsListing
trashable keys moment age listing t os ps (s, r) l =
    let aged = where_ (is_old moment age) (where_ is_scanned listing) in
    (
      s,
      λ k.
          let a = count-where_le (has_key k) is_scanned listing in
          let b = count-where_le (has_key k) (is_old moment age) (where_ is_scanned listing) in
          let c = count-where_le (has_key k) (is_orphan keys) aged in
          let d = l k in
          let e = s.backed k in
          elim (Bool-cases (is_one_of keys k)) [
            | inl f ↦
                let z =
                  count-where_none (has_key k) (is_orphan keys) aged
                    (λ o h. orphan_unread keys k o f h) in
                omega (arith, e, z)
            | inr f ↦ let z = r k f in omega (arith, a, b, c, d, z)
          ],
      λ k h.
          count-where_none (has_key k) (is_orphan keys) aged (λ o g. orphan_original keys k o h g),
    )

pub trashed-IsSound :
    (orphans : List Object) (t u : Tables) (os : List Object) (ps : List Part)
    → MayBeTrashed orphans t os ps
    → IsWith t (rows_of orphans) u
    → IsSound u os ps
unfolding MayBeTrashed
trashed-IsSound orphans t u os ps (s, m, d) w = record {
  backed =
      λ k. let a = m k in let b = w k in let c = count-rows_of k orphans in omega (arith, a, b, c);
  single = s.single;
  original = λ k h.
      let a = d k h in
      let b = w k in
      let c = count-rows_of k orphans in let e = s.original k h in omega (arith, a, b, c, e);
}

-- The keys that the rows name are among those read.
unfoldable pub IsLive : List Bytes → About
IsLive keys t os ps =
    IsSound t os ps × ((k : Bytes) → is_one_of keys k ≡ false → count (holds k) t.rows ≡ 0)

pub IsRead-both :
    (live : List Bytes) (t : Tables) (os : List Object) (ps : List Part)
    → IsLive live t os ps
    → IsRead (live ++ map (λ u. u.file.blob_key) (where_ (λ u. not u.file.is_dir) t.trash)) t os ps
unfolding IsLive IsRead
IsRead-both live t os ps (s, h) = (
  s,
  λ k e.
      let g = or_false (is_one_of live k) _ (sym (is_one_of-append live _ k) ∙ e) in
      let a = h k g.0 in let b = unread_trashed t.trash k g.1 in omega (arith, a, b),
)

pub read-Sound : (keys : List Bytes) (w : World) → Known (IsRead keys) w → Sound w
unfolding IsRead
read-Sound keys w p = p.0

pub listed : (os : List Object) → IsListing (where_ (λ o. has_prefix o.key []) os) os
unfolding IsListing
listed os k = count-where_le (has_key k) _ os
