-- ===== src/Db/Migrate/Load/Order.antt =====
-- The order in which the migrations are loaded.
use stratus_backend.Prelude.{
  suc, ◌≡◌, refl, false, ◌&&◌, List, [], ◌∷◌, Option, some, arith, ◌⊎◌, inl, inr, Bool-cases,
  Option-cases, All, All-map, length, ltb→lt, not-ltb→le, not-leb→lt, or_false, ap, ◌∙◌,
}
use stratus_backend.Prelude.Int.{ℤ, pos, ◌<ℤ◌, leb_ℤ, ltb_ℤ}
use stratus_backend.Prelude.Text.{Bytes, cut}
use stratus_backend.Prelude.Decimal.{parse_int}
use stratus_backend.Prelude.Result.{ok, Result-cases}
use stratus_backend.Db.Migrate.{Migration}
use stratus_backend.Db.Migrate.Again.{IsAscending}
use stratus_backend.Db.Migrate.Load.{
  base_of, has_version, read_entry, read_all, insert, sort, load_migrations,
}

abbrev Apart : ℤ → ℤ → Type 0
Apart a b = (a <ℤ b) ⊎ (b <ℤ a)

abbrev IsNew : List ℤ → Migration → Type 0
IsNew seen m = (pos 0 <ℤ m.version) × All (λ v. Apart m.version v) seen

abbrev AreApart : List Migration → Type 0
AreApart [] = Unit
AreApart (m ∷ ms) = All (λ n. Apart n.version m.version) ms × AreApart ms

insert-All :
    (P : Migration → Type 0) (m : Migration) (ms : List Migration)
    → P m
    → All P ms
    → All P (insert m ms)
unfolding insert
insert-All P m [] p h = (p, tt)
insert-All P m (n ∷ ns) p h = elim (Bool-cases (ltb_ℤ m.version n.version)) [
  | inl e ↦ rw e (p, h)
  | inr e ↦ rw e (h.0, insert-All P m ns p h.1)
]

sort-All : (P : Migration → Type 0) (ms : List Migration) → All P ms → All P (sort ms)
unfolding sort
sort-All P [] h = tt
sort-All P (m ∷ ms) h = insert-All P m (sort ms) h.0 (sort-All P ms h.1)

insert-IsAscending :
    (low : ℤ) (m : Migration) (ms : List Migration)
    → low <ℤ m.version
    → IsAscending low ms
    → All (λ n. Apart n.version m.version) ms
    → IsAscending low (insert m ms)
unfolding insert
insert-IsAscending low m [] l h a = (l, tt)
insert-IsAscending low m (n ∷ ns) l h a = elim (Bool-cases (ltb_ℤ m.version n.version)) [
  | inl e ↦ rw e (l, (ltb→lt _ _ e, h.1))
  | inr e ↦
      let k = not-ltb→le _ _ e in
      let below : n.version <ℤ m.version = elim a.0 [
        | inl x ↦ x
        | inr x ↦ absurd (omega (arith, k, x))
      ] in
      rw e (h.0, insert-IsAscending n.version m ns below h.1 a.1)
]

sort-IsAscending :
    (ms : List Migration)
    → All (λ m. pos 0 <ℤ m.version) ms
    → AreApart ms
    → IsAscending (pos 0) (sort ms)
unfolding sort
sort-IsAscending [] p a = tt
sort-IsAscending (m ∷ ms) p a =
    insert-IsAscending (pos 0) m (sort ms) p.0 (sort-IsAscending ms p.1 a.1)
      (sort-All (λ n. Apart n.version m.version) ms a.0)

length-insert : (m : Migration) (ms : List Migration) → length (insert m ms) ≡ suc (length ms)
unfolding insert
length-insert m [] = refl
length-insert m (n ∷ ns) = elim (Bool-cases (ltb_ℤ m.version n.version)) [
  | inl e ↦ rw e
  | inr e ↦ rw e (ap suc (length-insert m ns))
]

length-sort : (ms : List Migration) → length (sort ms) ≡ length ms
unfolding sort
length-sort [] = refl
length-sort (m ∷ ms) = length-insert m (sort ms) ∙ ap suc (length-sort ms)

has_version-Apart : (v : ℤ) (ws : List ℤ) → has_version v ws ≡ false → All (λ w. Apart v w) ws
unfolding has_version
has_version-Apart v [] h = tt
has_version-Apart v (w ∷ ws) h =
    let (a, b) = or_false (leb_ℤ v w && leb_ℤ w v) (has_version v ws) h in
    (
      elim (Bool-cases (leb_ℤ v w)) [
        | inl e ↦ inl (not-leb→lt _ _ (ground (arith, a, e)))
        | inr e ↦ inr (not-leb→lt _ _ e)
      ],
      has_version-Apart v ws b,
    )

read_entry-IsNew :
    (seen : List ℤ) (name : Bytes) (body : Option Bytes) (m : Migration)
    → read_entry seen name body ≡ ok m
    → IsNew seen m
unfolding read_entry
read_entry-IsNew seen name body m h = elim (Option-cases (cut (base_of name) b'_')) [
  | inl e ↦ cc (rw (e, read_entry) at h)
  | inr ((number, rest), e) ↦ elim (Option-cases (parse_int number)) [
    | inl f ↦ cc (rw (e, f, read_entry) at h)
    | inr (v, f) ↦ elim (Bool-cases (leb_ℤ v (pos 0))) [
      | inl g ↦ cc (rw (e, f, g, read_entry) at h)
      | inr g ↦ elim (Bool-cases (has_version v seen)) [
        | inl k ↦ cc (rw (e, f, g, k, read_entry) at h)
        | inr k ↦ elim (Option-cases body) [
          | inl b ↦ cc (rw (e, f, g, k, b, read_entry) at h)
          | inr (sql, b) ↦
              let q = rw (e, f, g, k, b, read_entry) at h in
              let w : m.version ≡ v = ground (arith, q) in
              rw w (not-leb→lt _ _ g, has_version-Apart v seen k)
        ]
      ]
    ]
  ]
]

Apart-sym : (a b : ℤ) → Apart a b → Apart b a
Apart-sym a b (inl h) = inr h
Apart-sym a b (inr h) = inl h

drop_seen : (v : ℤ) (seen : List ℤ) (m : Migration) → IsNew (v ∷ seen) m → IsNew seen m
drop_seen v seen m h = (h.0, h.1.1)

Loaded : List ℤ → List (Bytes × Option Bytes) → List Migration → Type 0
Loaded seen es ms = All (IsNew seen) ms × AreApart ms × (length ms ≡ length es)

Loaded-cons :
    (seen : List ℤ) (name : Bytes) (body : Option Bytes) (es : List (Bytes × Option Bytes))
    (m : Migration) (ms : List Migration)
    → IsNew seen m
    → Loaded (m.version ∷ seen) es ms
    → Loaded seen ((name, body) ∷ es) (m ∷ ms)
unfolding Loaded
Loaded-cons seen name body es m ms n (a, b, c) = (
  (n, All-map (IsNew (m.version ∷ seen)) (IsNew seen) (drop_seen m.version seen) ms a),
  (All-map (IsNew (m.version ∷ seen)) (λ k. Apart k.version m.version) (λ k h. h.1.0) ms a, b),
  ap suc c,
)

read_all-Loaded :
    (seen : List ℤ) (es : List (Bytes × Option Bytes)) (ms : List Migration)
    → read_all seen es ≡ ok ms
    → Loaded seen es ms
unfolding read_all Loaded
read_all-Loaded seen [] ms h = let q : ms ≡ [] = ground (arith, h) in rw q (tt, tt, refl)
read_all-Loaded seen ((name, body) ∷ es) ms h = elim (Result-cases (read_entry seen name body)) [
  | inl (f, e) ↦ cc (rw (e, read_all) at h)
  | inr (m, e) ↦ elim (Result-cases (read_all (m.version ∷ seen) es)) [
    | inl (f, g) ↦ cc (rw (e, g, read_all) at h)
    | inr (ns, g) ↦
        let k = rw (e, g, read_all) at h in
        let q : ms ≡ m ∷ ns = ground (arith, k) in
        rw q (
          Loaded-cons seen name body es m ns (read_entry-IsNew seen name body m e)
            (read_all-Loaded (m.version ∷ seen) es ns g))
  ]
]

load_all :
    (es : List (Bytes × Option Bytes)) (ms : List Migration)
    → load_migrations (some es) ≡ ok ms
    → (loaded : List Migration) × (read_all [] es ≡ ok loaded) × (ms ≡ sort loaded)
unfolding load_migrations
load_all [] ms h = cc h
load_all (e ∷ es) ms h = elim (Result-cases (read_all [] (e ∷ es))) [
  | inl (f, g) ↦ cc (rw (g, load_migrations) at h)
  | inr (ns, g) ↦ let k = rw (g, load_migrations) at h in (ns, g, ground (arith, k))
]

-- The migrations that are loaded are one for each file, and their versions are positive and strictly
-- increase.
pub load_migrations-IsAscending :
    (es : List (Bytes × Option Bytes)) (ms : List Migration)
    → load_migrations (some es) ≡ ok ms
    → IsAscending (pos 0) ms × (length ms ≡ length es)
unfolding Loaded
load_migrations-IsAscending es ms h =
    let (ns, e, q) = load_all es ms h in
    let (a, b, c) = read_all-Loaded [] es ns e in
    rw q (
      sort-IsAscending ns (All-map (IsNew []) (λ m. pos 0 <ℤ m.version) (λ m k. k.0) ns a) b,
      length-sort ns ∙ c,
    )
