-- ===== src/Prelude/Segments.antt =====
-- Names made of parts between separators: the tests that the storage keys and the stored paths share,
-- with what they mean.
use stratus_backend.Prelude.{
  ℕ, ◌≤◌, ◌≡◌, ◌≢◌, inl, inr, refl, ap, Bool, false, ◌||◌, List, [], ◌∷◌, ◌++◌, arith, ltb, ◌==◌,
  All, Option-cases, Bool-cases,
}
use stratus_backend.Prelude.Text.{
  Bytes, beq, beq_sound, beq_self, split, cut_prefix, cut_prefix_sound, cut_suffix,
  cut_suffix_sound, split_leading, split_trailing, has_prefix, has_suffix,
}

-- `for _, r := range key`: is there a control character?
unfoldable pub has_control : List ℕ → Bool
has_control [] = false
has_control (r ∷ rs) = (ltb r 0x20 || r == 0x7f) || has_control rs

abbrev pub IsPrintable : ℕ → Type 0
IsPrintable r = (0x20 ≤ r) × (r ≢ 0x7f)

pub has_control-IsPrintable : (rs : List ℕ) → has_control rs ≡ false → All IsPrintable rs
unfolding has_control
has_control-IsPrintable [] h = tt
has_control-IsPrintable (r ∷ rs) h = (ground arith, has_control-IsPrintable rs (ground arith))

pub printable-has_control : (rs : List ℕ) → All IsPrintable rs → has_control rs ≡ false
unfolding has_control
printable-has_control [] h = refl
printable-has_control (r ∷ rs) (h, hs) = ground (arith, printable-has_control rs hs)

pub beq-ne : (s t : Bytes) → s ≢ t → beq s t ≡ false
beq-ne s t h = elim (Bool-cases (beq s t)) [ inl e ↦ absurd (h (beq_sound s t e)) | inr e ↦ e ]

pub ne-beq : (s t : Bytes) → beq s t ≡ false → s ≢ t
ne-beq s t h e = cc (h, beq_self s, ap (λ x. beq s x) e)

All-last : (ps : List Bytes) → ¬ All (λ p. p ≢ []) (ps ++ [] ∷ [])
All-last [] h = h.0 refl
All-last (p ∷ ps) h = All-last ps h.1

-- A text with no empty part neither begins nor ends with a separator, and is not empty.
module _ (key : Bytes) (sep : ℕ) (h : All (λ p. p ≢ []) (split key sep)) where
  pub no_leading_sep : has_prefix key (sep ∷ []) ≡ false
  no_leading_sep = elim (Option-cases (cut_prefix key (sep ∷ []))) [
    | inl e ↦ rw e
    | inr (s, e) ↦
        let k = cut_prefix_sound key (sep ∷ []) s e in
        let hs : All (λ p. p ≢ []) ([] ∷ split s sep) = rw (k, split_leading s sep) at h in
        absurd (hs.0 refl)
  ]

  pub no_trailing_sep : has_suffix key (sep ∷ []) ≡ false
  no_trailing_sep = elim (Option-cases (cut_suffix key (sep ∷ []))) [
    | inl e ↦ rw e
    | inr (s, e) ↦
        let k = cut_suffix_sound key (sep ∷ []) s e in
        absurd (All-last (split s sep) (rw (k, split_trailing s sep) at h))
  ]

pub nonempty : (key : Bytes) (sep : ℕ) → All (λ p. p ≢ []) (split key sep) → beq key [] ≡ false
unfolding beq split
nonempty [] sep h = absurd (h.0 refl)
nonempty (c ∷ key) sep h = refl
