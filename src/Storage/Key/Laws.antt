-- ===== src/Storage/Key/Laws.antt =====
-- What `ValidateKey` accepts.
use stratus_backend.Prelude.{
  ℕ, ◌≤◌, ◌≡◌, ◌≢◌, ◌↔◌, inl, inr, refl, ◌∙◌, Bool, true, false, ◌&&◌, List, [], ◌∷◌, none, some,
  arith, length, All, All-map, Option-cases,
}
use stratus_backend.Prelude.Text.{
  Bytes, codes, Lacks, beq, split, contains-Lacks, contains-eq-false, split_cons,
}
use stratus_backend.Prelude.Segments.{
  IsPrintable, has_control-IsPrintable, printable-has_control, beq-ne, ne-beq, no_leading_sep,
  no_trailing_sep, nonempty,
}
use stratus_backend.Prelude.Utf8.{runes}
use stratus_backend.Storage.Key.{
  max_key_len, max_segment_len, starts_with_dot, segment_fault, segments_fault, validate_key,
}

abbrev pub IsSegment : Bytes → Type 0
IsSegment seg = (seg ≢ []) × (seg ≢ codes ".") × (seg ≢ codes "..") × (length seg ≤ max_segment_len)

-- The grammar that the comment of ValidateKey describes, in terms of the whole text and its parts.
pub record IsKey (key : Bytes) : Type 0 where
  pub utf8 : (rs : List ℕ) × (runes key ≡ some rs) × All IsPrintable rs
  pub fits : length key ≤ max_key_len
  pub no_backslash : Lacks b'\\' key
  pub not_reserved : starts_with_dot key ≡ false
  pub segments : All IsSegment (split key b'/')

segment_ok :
    (first : Bool) (seg : Bytes)
    → IsSegment seg
    → first && starts_with_dot seg ≡ false
    → segment_fault first seg ≡ none
unfolding segment_fault
segment_ok first seg (h₀, h₁, h₂, h₃) d =
    ground (arith, beq-ne seg [] h₀, beq-ne seg (codes ".") h₁, beq-ne seg (codes "..") h₂)

ok_segment :
    (first : Bool) (seg : Bytes)
    → segment_fault first seg ≡ none
    → IsSegment seg × (first && starts_with_dot seg ≡ false)
unfolding segment_fault
ok_segment first seg h =
    let a : beq seg [] ≡ false = ground arith in
    let b : beq seg (codes ".") ≡ false = ground arith in
    let c : beq seg (codes "..") ≡ false = ground arith in
    let d : length seg ≤ max_segment_len = ground arith in
    let e : first && starts_with_dot seg ≡ false = ground arith in
    ((ne-beq seg [] a, ne-beq seg (codes ".") b, ne-beq seg (codes "..") c, d), e)

segments_ok : (segs : List Bytes) → All IsSegment segs → segments_fault false segs ≡ none
unfolding segments_fault
segments_ok [] h = refl
segments_ok (seg ∷ segs) (h, hs) =
    rw (segment_ok false seg h refl, segments_fault) (segments_ok segs hs)

ok_segments :
    (first : Bool) (segs : List Bytes) → segments_fault first segs ≡ none → All IsSegment segs
unfolding segments_fault
ok_segments first [] h = tt
ok_segments first (seg ∷ segs) h = elim (Option-cases (segment_fault first seg)) [
  | inl e ↦ ((ok_segment first seg e).0, ok_segments false segs (rw (e, segments_fault) at h))
  | inr (f, e) ↦ cc (rw (e, segments_fault) at h)
]

-- The first part begins as the text does, where it is not empty.
split-starts_with_dot :
    (key p : Bytes) (ps : List Bytes)
    → split key b'/' ≡ p ∷ ps
    → p ≢ []
    → starts_with_dot p ≡ starts_with_dot key
unfolding split starts_with_dot
split-starts_with_dot [] p ps h n = cc
split-starts_with_dot (c ∷ key) p ps h n = let (q, qs, e) = split_cons key b'/' in ground arith

first_segment_ok :
    (key : Bytes) → segments_fault true (split key b'/') ≡ none → starts_with_dot key ≡ false
unfolding segments_fault
first_segment_ok key h =
    let (p, ps, e) = split_cons key b'/' in
    elim (Option-cases (segment_fault true p)) [
      | inl f ↦ let (ok, d) = ok_segment true p f in cc (d, split-starts_with_dot key p ps e ok.0)
      | inr (f, g) ↦ cc (rw (e, g, segments_fault) at h)
    ]

segments_ok_first :
    (key : Bytes)
    → All IsSegment (split key b'/')
    → starts_with_dot key ≡ false
    → segments_fault true (split key b'/') ≡ none
unfolding segments_fault
segments_ok_first key h d =
    let (p, ps, e) = split_cons key b'/' in
    let hs : All IsSegment (p ∷ ps) = rw e at h in
    rw (e, segment_ok true p hs.0 (split-starts_with_dot key p ps e hs.0.0 ∙ d), segments_fault)
      (segments_ok ps hs.1)

IsKey-of_none : (key : Bytes) → validate_key key ≡ none → IsKey key
unfolding validate_key
IsKey-of_none key h = elim (Option-cases (runes key)) [
  | inl e ↦ absurd (ground arith)
  | inr (rs, e) ↦
      let segs : segments_fault true (split key b'/') ≡ none = ground arith in
      record {
        utf8 = (rs, e, has_control-IsPrintable rs (ground arith));
        fits = ground arith;
        no_backslash = contains-Lacks key b'\\' (ground arith);
        not_reserved = first_segment_ok key segs;
        segments = ok_segments true (split key b'/') segs;
      }
]

none_of_key : (key : Bytes) → IsKey key → validate_key key ≡ none
unfolding validate_key
none_of_key key k =
    let (rs, e, printable) = k.utf8 in
    let parts = All-map IsSegment (λ seg. seg ≢ []) (λ seg h. h.0) (split key b'/') k.segments in
    ground (
      arith,
      e,
      printable-has_control rs printable,
      no_leading_sep key b'/' parts,
      no_trailing_sep key b'/' parts,
      contains-eq-false key b'\\' k.no_backslash,
      segments_ok_first key k.segments k.not_reserved,
      nonempty key b'/' parts,
    )

-- A key is accepted exactly when it is a key of the grammar: valid UTF-8 with no control character
-- and no backslash, at most 1024 bytes, not beginning with a dot, and each part between slashes
-- neither empty nor `.` nor `..` nor longer than 255 bytes.
pub validate_key-none : (key : Bytes) → (validate_key key ≡ none) ↔ IsKey key
validate_key-none key = (IsKey-of_none key, none_of_key key)
