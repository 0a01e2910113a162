-- ===== src/Db/Path/Copies.antt =====
-- The parent of a path, and the numbered copies of a name.
use stratus_backend.Prelude.{
  ℕ, ◌≡◌, ◌≢◌, ◌⊎◌, inl, inr, refl, sym, ap, subst, ◌∙◌, [], ◌∷◌, ◌++◌, append-nil, append_assoc,
  none, some, arith, ◌==◌, Option-cases, Bool-cases, All, All-append, All-both, lt→not-leb,
  not-leb→lt, ◌+◌, ==_ne, ==_self, eq_of_==,
}
use mathlib.Core.List.{reverse, reverse-append, reverse-reverse}
use stratus_backend.Prelude.Int.{ℤ, pos, pos_part, neg_part, ◌<ℤ◌, leb_ℤ}
use stratus_backend.Prelude.Text.{Bytes, codes, Lacks, cut_suffix-append, cut, cut-append}
use stratus_backend.Prelude.Decimal.{
  format_int, format_int-Lacks, IsInt64, parse_int, parse_int-format_int,
}
use stratus_backend.Db.Path.{cut_last, parent_of, ext_scan, ext, trim_suffix, copy_name}

cut_last-none : (s : Bytes) (sep : ℕ) → cut_last s sep ≡ none → Lacks sep s
unfolding cut_last
cut_last-none [] sep h = tt
cut_last-none (c ∷ s) sep h = (ground arith, cut_last-none s sep (ground arith))

cut_last-some :
    (s : Bytes) (sep : ℕ) (a b : Bytes)
    → cut_last s sep ≡ some (a, b)
    → (s ≡ a ++ (sep ∷ b)) × Lacks sep b
unfolding cut_last
cut_last-some [] sep a b h = cc
cut_last-some (c ∷ s) sep a b h = elim (Option-cases (cut_last s sep)) [
  | inl e ↦
      let u : a ≡ [] = ground arith in
      let v : b ≡ s = ground arith in
      let w : c ≡ sep = ground arith in (cc (u, v, w), rw v (cut_last-none s sep e))
  | inr ((x, y), e) ↦
      let (f, g) = cut_last-some s sep x y e in
      let u : a ≡ c ∷ x = ground arith in let v : b ≡ y = ground arith in (cc (u, v, f), rw v g)
]

-- A path with a slash is its parent, the last slash, and a last element with no slash; one with no
-- slash stands at the root, whose name is empty.
pub parent_of_parts :
    (path : Bytes)
    → ((parent_of path ≡ []) × Lacks b'/' path)
      ⊎ ((base : Bytes) × (path ≡ parent_of path ++ (b'/' ∷ base)) × Lacks b'/' base)
unfolding parent_of
parent_of_parts path = elim (Option-cases (cut_last path b'/')) [
  | inl e ↦ inl (rw (e, parent_of), cut_last-none path b'/' e)
  | inr ((a, b), e) ↦ let (f, g) = cut_last-some path b'/' a b e in inr (b, rw (e, parent_of) f, g)
]

abbrev IsStem : ℕ → Type 0
IsStem c = (c ≢ b'.') × (c ≢ b'/')

-- Bytes that are neither a dot nor a slash are passed over.
scan_stem :
    (t rest acc : Bytes)
    → All IsStem t
    → ext_scan (reverse t ++ rest) acc ≡ ext_scan rest (t ++ acc)
unfolding ext_scan
scan_stem [] rest acc h = refl
scan_stem (c ∷ t) rest acc ((hd, hs), h) = rw (
  reverse-append (c ∷ []) t,
  append_assoc,
  scan_stem t (c ∷ rest) acc h,
  ==_ne c b'/' hs,
  ==_ne c b'.' hd,
)

-- Whether an extension is found does not depend on what was passed.
scan_empty : (r acc acc' : Bytes) → ext_scan r acc ≡ [] → ext_scan r acc' ≡ []
unfolding ext_scan
scan_empty [] acc acc' h = refl
scan_empty (c ∷ r) acc acc' h = ground (arith, scan_empty r (c ∷ acc) (c ∷ acc'))

rev_step : (c : ℕ) (r acc : Bytes) → reverse (c ∷ r) ++ acc ≡ reverse r ++ (c ∷ acc)
rev_step c r acc = rw (reverse-append (c ∷ []) r) (append_assoc (reverse r) (c ∷ []) acc)

data Extension (name e : Bytes) : Type 0 where
  bare : e ≡ [] → Extension name e
  dotted : (v w : Bytes) → e ≡ b'.' ∷ w → All IsStem w → name ≡ v ++ e → Extension name e

scan-Extension : (r acc : Bytes) → All IsStem acc → Extension (reverse r ++ acc) (ext_scan r acc)
unfolding ext_scan
scan-Extension [] acc h = bare refl
scan-Extension (c ∷ r) acc h = elim (Bool-cases (c == b'/')) [
  | inl e ↦ bare (rw e)
  | inr e ↦ elim (Bool-cases (c == b'.')) [
    | inl d ↦ dotted (reverse r) acc (rw (e, d, eq_of_== c b'.' d)) h (rw (e, d) (rev_step c r acc))
    | inr d ↦
        rw (e, d)
          (subst (λ t. Extension t (ext_scan r (c ∷ acc))) (sym (rev_step c r acc))
            (scan-Extension r (c ∷ acc)
              ((λ f. cc (==_self c, d, f), λ f. cc (==_self c, e, f)), h)))
  ]
]

ext-Extension : (name : Bytes) → Extension name (ext name)
unfolding ext
ext-Extension name =
    subst (λ t. Extension t (ext_scan (reverse name) []))
      (append-nil (reverse (reverse name)) ∙ reverse-reverse name)
      (scan-Extension (reverse name) [] tt)

rev_dot : (v w : Bytes) → reverse (v ++ (b'.' ∷ w)) ≡ reverse w ++ (b'.' ∷ reverse v)
rev_dot v w =
    ap reverse (sym (append_assoc v (b'.' ∷ []) w))
    ∙ reverse-append (v ++ b'.' ∷ []) w
    ∙ ap (λ t. reverse w ++ t) (reverse-append v (b'.' ∷ []))

-- An extension behind any text is the extension of the whole.
ext-append : (v w : Bytes) → All IsStem w → ext (v ++ (b'.' ∷ w)) ≡ b'.' ∷ w
unfolding ext ext_scan
ext-append v w h =
    rw (rev_dot v w, scan_stem w (b'.' ∷ reverse v) [] h) (ap (λ t. b'.' ∷ t) (append-nil w))

-- Text with neither a dot nor a slash behind a name with no extension gives it none.
ext-append_bare : (v w : Bytes) → All IsStem w → ext v ≡ [] → ext (v ++ w) ≡ []
unfolding ext
ext-append_bare v w h e =
    rw (reverse-append v w, scan_stem w (reverse v) [] h) (scan_empty (reverse v) [] (w ++ []) e)

trim_suffix-append : (v e : Bytes) → trim_suffix (v ++ e) e ≡ v
unfolding trim_suffix
trim_suffix-append v e = rw (cut_suffix-append v e, trim_suffix)

-- The number that stands between the stem and the extension.
abbrev mark : ℤ → Bytes
mark n = codes " (" ++ (format_int n ++ codes ")")

mark-IsStem : (n : ℤ) → All IsStem (mark n)
mark-IsStem n = (
  omega arith,
  (
    omega arith,
    All-append IsStem (format_int n) (codes ")")
        (All-both (λ c. c ≢ b'.') (λ c. c ≢ b'/') (format_int n)
          (format_int-Lacks n b'.' (omega arith) (omega arith))
          (format_int-Lacks n b'/' (omega arith) (omega arith)))
        (omega arith),
  ),
)

abbrev stem_of : Bytes → Bytes
stem_of name = trim_suffix name (ext name)

-- A name is its stem and its extension.
stem-ext : (name : Bytes) → name ≡ stem_of name ++ ext name
stem-ext name = go (ext-Extension name)
  where
    go : Extension name (ext name) → name ≡ stem_of name ++ ext name
    go (bare e) =
        sym (trim_suffix-append name [])
        ∙ ap (λ t. trim_suffix t []) (append-nil name)
        ∙ sym (append-nil (trim_suffix name []))
        ∙ ap (λ t. trim_suffix name t ++ t) (sym e)
    go (dotted v w e h p) =
        p
        ∙ ap (λ t. t ++ ext name)
            (sym (ap (λ t. trim_suffix t (ext name)) p ∙ trim_suffix-append v (ext name)))

copy_name-eq :
    (name : Bytes) (n : ℤ) → pos 1 <ℤ n → copy_name name n ≡ stem_of name ++ (mark n ++ ext name)
unfolding copy_name
copy_name-eq name n h = rw (lt→not-leb (pos_part n + 0) (1 + neg_part n) (omega arith)) (
    ap (λ t. stem_of name ++ (32 ∷ 40 ∷ t))
      (sym (append_assoc (format_int n) (codes ")") (ext name))))

ext-mark :
    (name v : Bytes) (n : ℤ) → name ≡ v ++ ext name → ext (v ++ (mark n ++ ext name)) ≡ ext name
ext-mark name v n p = go (ext-Extension name)
  where
    go : Extension name (ext name) → ext (v ++ (mark n ++ ext name)) ≡ ext name
    go (bare e) =
        let r : name ≡ v = p ∙ ap (λ t. v ++ t) e ∙ append-nil v in
        ap (λ t. ext (v ++ (mark n ++ t))) e
        ∙ ap (λ t. ext (v ++ t)) (append-nil (mark n))
        ∙ ext-append_bare v (mark n) (mark-IsStem n) (ap ext (sym r) ∙ e)
        ∙ sym e
    go (dotted u w e h q) =
        ap (λ t. ext (v ++ (mark n ++ t))) e
        ∙ ap ext (sym (append_assoc v (mark n) (b'.' ∷ w)))
        ∙ ext-append (v ++ mark n) w h
        ∙ sym e

-- A numbered copy keeps the extension of its name.
pub ext-copy_name : (name : Bytes) (n : ℤ) → ext (copy_name name n) ≡ ext name
ext-copy_name name n = elim (Bool-cases (leb_ℤ n (pos 1))) [
  | inl e ↦ unfold copy_name in rw e
  | inr e ↦
      ap ext (copy_name-eq name n (omega (arith, not-leb→lt _ _ e)))
      ∙ ext-mark name (stem_of name) n (stem-ext name)
]

before_paren : Bytes → Bytes
before_paren t = elim (cut t b')') [ none ↦ [] | some (a, b) ↦ a ]

before_paren-format_int :
    (n : ℤ) (e : Bytes) → before_paren (format_int n ++ (b')' ∷ e)) ≡ format_int n
unfolding before_paren
before_paren-format_int n e = rw (
  cut-append (format_int n) e b')' (format_int-Lacks n b')' (omega arith) (omega arith)),
  before_paren,
)

drop_stem : (v a b : Bytes) → v ++ (32 ∷ 40 ∷ a) ≡ v ++ (32 ∷ 40 ∷ b) → a ≡ b
drop_stem [] a b h = cc
drop_stem (c ∷ v) a b h = drop_stem v a b (cc)

-- Copies of one name with different numbers, from 2 on, are different names.
pub copy_name_injective :
    (name : Bytes) (m n : ℤ)
    → pos 1 <ℤ m
    → pos 1 <ℤ n
    → IsInt64 m
    → IsInt64 n
    → copy_name name m ≡ copy_name name n
    → m ≡ n
copy_name_injective name m n hm hn im jn h =
    let p = sym (copy_name-eq name m hm) ∙ h ∙ copy_name-eq name n hn in
    let q = drop_stem (stem_of name) _ _ p in
    let r : format_int m ≡ format_int n =
      sym (before_paren-format_int m (ext name))
      ∙ ap before_paren (
          sym (append_assoc (format_int m) (codes ")") (ext name))
          ∙ q
          ∙ append_assoc (format_int n) (codes ")") (ext name))
      ∙ before_paren-format_int n (ext name) in
    cc (parse_int-format_int m im, parse_int-format_int n jn, ap parse_int r)
