-- ===== src/Storage/Range/Laws.antt =====
-- What a resolved range is.
use stratus_backend.Prelude.{◌≡◌, arith, Bool-cases, inl, inr}
use stratus_backend.Prelude.Int.{ℤ, pos, ◌-ℤ◌, ◌+ℤ◌, ◌≤ℤ◌, leb_ℤ, min_ℤ, min_ℤ_cases, int_laws}
use stratus_backend.Prelude.Result.{ok}
use stratus_backend.Storage.Range.{Range, resolve}

-- The pairs that Resolve can answer.
data Answer (r : Range) (size off n : ℤ) : Type 0 where
  whole : pos 0 ≤ℤ size → off ≡ pos 0 → n ≡ size → Answer r size off n
  tail : pos 0 ≤ℤ r.n → r.n ≤ℤ size → off ≡ size -ℤ r.n → n ≡ r.n → Answer r size off n
  rest : pos 0 ≤ℤ r.off → r.off ≤ℤ size → off ≡ r.off → n ≡ size -ℤ r.off → Answer r size off n
  part :
      pos 0 ≤ℤ r.off
      → r.off ≤ℤ size
      → pos 0 ≤ℤ r.n
      → off ≡ r.off
      → n ≡ min_ℤ r.n (size -ℤ r.off)
      → Answer r size off n

abbrev Inside : ℤ → ℤ → ℤ → Type 0
Inside size off n = (pos 0 ≤ℤ off) × (pos 0 ≤ℤ n) × (off +ℤ n ≤ℤ size)

resolve_answer : (r : Range) (size off n : ℤ) → resolve r size ≡ ok (off, n) → Answer r size off n
unfolding resolve
resolve_answer r size off n h = elim (Bool-cases r.suffix) [
  | inl s ↦ elim (Bool-cases (leb_ℤ size r.n)) [
    | inl w ↦ whole (ground arith) (ground arith) (ground arith)
    | inr w ↦ tail (ground arith) (ground arith) (ground arith) (ground arith)
  ]
  | inr s ↦ elim (Bool-cases r.has_len) [
    | inl l ↦ part (ground arith) (ground arith) (ground arith) (ground arith) (ground arith)
    | inr l ↦ rest (ground arith) (ground arith) (ground arith) (ground arith)
  ]
]

Answer-Inside : (r : Range) (size off n : ℤ) → Answer r size off n → Inside size off n
Answer-Inside r size off n (whole h e f) = rw (e, f) (omega int_laws)
Answer-Inside r size off n (tail a b e f) = rw (e, f) (omega int_laws)
Answer-Inside r size off n (rest a b e f) = rw (e, f) (omega int_laws)
Answer-Inside r size off n (part a b c e f) = elim (min_ℤ_cases r.n (size -ℤ r.off)) [
  | inl (g, l) ↦ rw (e, f, g) (omega int_laws)
  | inr (g, l) ↦ rw (e, f, g) (omega int_laws)
]

-- A range that resolves lies inside the object: its offset and its length are not negative, and it
-- ends at the end of the object or before it.
pub resolve_bounds :
    (r : Range) (size : ℤ) {off n : ℤ}
    → resolve r size ≡ ok (off, n)
    → (pos 0 ≤ℤ off) × (pos 0 ≤ℤ n) × (off +ℤ n ≤ℤ size)
resolve_bounds r size {off} {n} h = Answer-Inside r size off n (resolve_answer r size off n h)
