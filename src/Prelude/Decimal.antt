-- ===== src/Prelude/Decimal.antt =====
-- strconv.FormatInt and strconv.ParseInt in base ten, for an int64.
use stratus_backend.Prelude.{
  ℕ, zero, suc, ◌+◌, ◌-◌, ◌*◌, ◌/◌, ◌%◌, ◌^◌, ◌≤◌, ◌<◌, ◌≡◌, ◌≢◌, refl, sym, le→leb, inl, inr, Bool,
  ◌&&◌, [], ◌∷◌, Option, none, some, arith, leb, ◌==◌, if◌then◌else◌, ◌>>=◌, All, All-map,
  Bool-cases, ==_ne,
}
use stratus_backend.Prelude.Int.{ℤ, pos, negsuc}
use stratus_backend.Prelude.Text.{Bytes, codes, Lacks}

-- One round for each digit; the last digit comes out first.
digits : ℕ → ℕ → Bytes → Bytes
digits zero n acc = acc
digits (suc f) n acc =
    let rest = digits f (n / 10) ((b'0' + n % 10) ∷ acc) in if n == 0 then acc else rest

unfoldable pub format_nat : ℕ → Bytes
unfolding digits
format_nat n = if n == 0 then b'0' ∷ [] else digits n n []

unfoldable pub format_int : ℤ → Bytes
unfolding format_nat
format_int (pos n) = format_nat n
format_int (negsuc n) = b'-' ∷ format_nat (suc n)

abbrev pub is_digit : ℕ → Bool
is_digit c = leb b'0' c && leb c b'9'

parse_digits : Bytes → ℕ → Option ℕ
parse_digits [] n = some n
parse_digits (c ∷ s) n =
    let rest = parse_digits s (n * 10 + (c - b'0')) in if is_digit c then rest else none

unfoldable pub parse_nat : Bytes → Option ℕ
unfolding parse_digits
parse_nat [] = none
parse_nat (c ∷ s) = parse_digits (c ∷ s) 0

pub negated : ℕ → ℤ
negated zero = pos 0
negated (suc n) = negsuc n

unfoldable pub parse_int : Bytes → Option ℤ
unfolding parse_nat negated
parse_int [] = none
parse_int (c ∷ s) =
    if c == b'-'
    then (do n ← parse_nat s; if leb n (2 ^ 63) then some (negated n) else none)
    else if c == b'+'
    then (do n ← parse_nat s; if leb n (2 ^ 63 - 1) then some (pos n) else none)
    else (do n ← parse_nat (c ∷ s); if leb n (2 ^ 63 - 1) then some (pos n) else none)

abbrev pub IsDigit : ℕ → Type 0
IsDigit c = (b'0' ≤ c) × (c ≤ b'9')

abbrev pub IsInt64 : ℤ → Type 0
IsInt64 (pos n) = n < 2 ^ 63
IsInt64 (negsuc n) = n < 2 ^ 63

digits-IsDigit : (f n : ℕ) (acc : Bytes) → All IsDigit acc → All IsDigit (digits f n acc)
unfolding digits
digits-IsDigit zero n acc h = h
digits-IsDigit (suc f) n acc h =
    let ih = digits-IsDigit f (n / 10) ((b'0' + n % 10) ∷ acc) ((omega arith, omega arith), h) in
    elim (Bool-cases (n == 0)) [ inl e ↦ rw e h | inr e ↦ rw e ih ]

pub format_nat-IsDigit : (n : ℕ) → All IsDigit (format_nat n)
unfolding format_nat
format_nat-IsDigit n = elim (Bool-cases (n == 0)) [
  | inl e ↦ rw e (omega arith)
  | inr e ↦ rw e (digits-IsDigit n n [] tt)
]

digits-ne-nil : (f n : ℕ) (acc : Bytes) → acc ≢ [] → digits f n acc ≢ []
unfolding digits
digits-ne-nil zero n acc h = h
digits-ne-nil (suc f) n acc h = ground (arith, digits-ne-nil f (n / 10) ((b'0' + n % 10) ∷ acc))

parse_digits-digits :
    (f n : ℕ) (acc : Bytes) → n ≤ f → parse_digits (digits f n acc) 0 ≡ parse_digits acc n
unfolding digits parse_digits
parse_digits-digits zero n acc h = let e : n ≡ 0 = omega arith in rw e
parse_digits-digits (suc f) n acc h =
    ground (arith, parse_digits-digits f (n / 10) ((b'0' + n % 10) ∷ acc))

format_nat-ne-nil : (n : ℕ) → format_nat n ≢ []
unfolding format_nat digits
format_nat-ne-nil zero = cc
format_nat-ne-nil (suc n) =
    ground (arith, digits-ne-nil n (suc n / 10) ((b'0' + suc n % 10) ∷ []) (cc))

nonempty_digits :
    (t : Bytes)
    → t ≢ []
    → All IsDigit t
    → (c : ℕ) × (s : Bytes) × (t ≡ c ∷ s) × IsDigit c × All IsDigit s
nonempty_digits [] h d = absurd (h refl)
nonempty_digits (c ∷ s) h (d, ds) = (c, s, refl, d, ds)

pub format_nat_cons :
    (n : ℕ) → (c : ℕ) × (s : Bytes) × (format_nat n ≡ c ∷ s) × IsDigit c × All IsDigit s
format_nat_cons n = nonempty_digits (format_nat n) (format_nat-ne-nil n) (format_nat-IsDigit n)

parse_nat-eq : (s : Bytes) → s ≢ [] → parse_nat s ≡ parse_digits s 0
unfolding parse_nat
parse_nat-eq [] h = absurd (h refl)
parse_nat-eq (c ∷ s) h = refl

pub parse_nat-format_nat : (n : ℕ) → parse_nat (format_nat n) ≡ some n
unfolding format_nat parse_digits
parse_nat-format_nat n =
    rw (parse_nat-eq (format_nat n) (format_nat-ne-nil n))
      (ground (arith, parse_digits-digits n n []))

parse_int-unsigned :
    (c : ℕ) (s : Bytes)
    → IsDigit c
    → parse_int (c ∷ s)
      ≡ (do n ← parse_nat (c ∷ s); if leb n (2 ^ 63 - 1) then some (pos n) else none)
unfolding parse_int
parse_int-unsigned c s h = rw (==_ne c b'-' (omega arith), ==_ne c b'+' (omega arith))

-- Every int64 is read back from its decimal print.
pub parse_int-format_int : (n : ℤ) → IsInt64 n → parse_int (format_int n) ≡ some n
unfolding format_int
parse_int-format_int (pos n) h =
    let (c, s, e, d, ds) = format_nat_cons n in
    rw (e, parse_int-unsigned c s d, ← e, parse_nat-format_nat n)
      (rw (le→leb n (2 ^ 63 - 1) (omega arith)))
parse_int-format_int (negsuc n) h =
    unfold parse_int negated in
    rw (parse_nat-format_nat (suc n)) (rw (le→leb (suc n) (2 ^ 63) (omega arith)))

-- A print holds digits alone, behind a minus sign for a negative number.
pub format_int-Lacks : (n : ℤ) (b : ℕ) → b ≢ b'-' → ¬ IsDigit b → Lacks b (format_int n)
unfolding format_int
format_int-Lacks (pos n) b h d =
    All-map IsDigit (λ c. c ≢ b) (λ c k e. d (rw e at k)) (format_nat n) (format_nat-IsDigit n)
format_int-Lacks (negsuc n) b h d = (
  λ e. h (sym e),
  All-map IsDigit (λ c. c ≢ b) (λ c k e. d (rw e at k)) (format_nat (suc n))
      (format_nat-IsDigit (suc n)),
)

int64_least : parse_int (codes "-9223372036854775808") ≡ some (negsuc (2 ^ 63 - 1))
unfolding parse_int
int64_least = refl

int64_past : parse_int (codes "9223372036854775808") ≡ none
unfolding parse_int
int64_past = refl

print_negative : format_int (negsuc 120) ≡ codes "-121"
unfolding format_int
print_negative = refl

pub format_int-digits : (n b : ℕ) → ¬ IsDigit b → Lacks b (format_int (pos n))
unfolding format_int
format_int-digits n b d =
    All-map IsDigit (λ c. c ≢ b) (λ c k e. d (rw e at k)) (format_nat n) (format_nat-IsDigit n)
