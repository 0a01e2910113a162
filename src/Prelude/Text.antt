-- ===== src/Prelude/Text.antt =====
-- Go strings as lists of bytes, with the functions of package strings that the code uses.
use Prim.Native.Char.{code}
use Prim.Native.String.{String}
use stratus_backend.Prelude.Tests.{
  ◌==◌, if◌then◌else◌, eq_of_==, ==_self, ==_ne, Bool-cases, Option-cases,
}
use stratus_backend.Prelude.Lists.{All}
use Prim.Native.Nat.{ℕ}
use mathlib.Core.Path.{◌≡◌, refl, ap, sym, ◌≡⟨◌⟩◌, ◌∎}
use mathlib.Core.Logic.{◌≢◌, inl, inr}
use mathlib.Core.Bool.{Bool, true, false, ◌&&◌, ◌||◌}
use mathlib.Core.Option
use mathlib.Core.Option.{Option, none, some, some-injective}
use mathlib.Core.List.{List, [], ◌∷◌, ◌++◌, reverse, reverse-append, reverse-reverse}
use native.Mathlib.Omega.{arith}

abbrev pub Bytes : Type 0
Bytes = List ℕ

-- The code points of a literal: its bytes, as every literal here is ASCII.
abbrev pub codes : String → Bytes
codes String.[] = []
codes (String.◌∷◌ c s) = code c ∷ codes s

abbrev pub Lacks : ℕ → Bytes → Type 0
Lacks b = All (λ c. c ≢ b)

-- a == b on strings
unfoldable pub beq : Bytes → Bytes → Bool
beq [] [] = true
beq [] (b ∷ t) = false
beq (a ∷ s) [] = false
beq (a ∷ s) (b ∷ t) = a == b && beq s t

pub beq_sound : (s t : Bytes) → beq s t ≡ true → s ≡ t
unfolding beq
beq_sound [] [] h = refl
beq_sound [] (b ∷ t) h = cc
beq_sound (a ∷ s) [] h = cc
beq_sound (a ∷ s) (b ∷ t) h = ground (arith, beq_sound s t)

pub beq_self : (s : Bytes) → beq s s ≡ true
unfolding beq
beq_self [] = refl
beq_self (a ∷ s) = ground (arith, beq_self s)

-- strings.CutPrefix: the rest behind the prefix, when it is there.
unfoldable pub cut_prefix : Bytes → Bytes → Option Bytes
cut_prefix s [] = some s
cut_prefix [] (p ∷ ps) = none
cut_prefix (c ∷ s) (p ∷ ps) = let rest = cut_prefix s ps in if c == p then rest else none

abbrev pub is_some {ℓ} : {A : Type ℓ} → Option A → Bool
is_some none = false
is_some (some a) = true

-- strings.HasPrefix
abbrev pub has_prefix : Bytes → Bytes → Bool
has_prefix s p = is_some (cut_prefix s p)

pub cut_prefix_sound : (s p rest : Bytes) → cut_prefix s p ≡ some rest → s ≡ p ++ rest
unfolding cut_prefix
cut_prefix_sound s [] rest h = cc
cut_prefix_sound [] (p ∷ ps) rest h = cc
cut_prefix_sound (c ∷ s) (p ∷ ps) rest h = ground (arith, cut_prefix_sound s ps rest)

pub cut_prefix-append : (p rest : Bytes) → cut_prefix (p ++ rest) p ≡ some rest
unfolding cut_prefix
cut_prefix-append [] rest = refl
cut_prefix-append (p ∷ ps) rest = ground (arith, cut_prefix-append ps rest)

-- strings.Split at one byte; a text has at least one part.
unfoldable pub cons_head : ℕ → List Bytes → List Bytes
cons_head c [] = (c ∷ []) ∷ []
cons_head c (p ∷ ps) = (c ∷ p) ∷ ps

unfoldable pub split : Bytes → ℕ → List Bytes
unfolding cons_head
split [] sep = [] ∷ []
split (c ∷ s) sep = let rest = split s sep in if c == sep then [] ∷ rest else cons_head c rest

-- strings.Join at one byte.
unfoldable pub join : List Bytes → ℕ → Bytes
join [] sep = []
join (p ∷ []) sep = p
join (p ∷ q ∷ ps) sep = p ++ (sep ∷ join (q ∷ ps) sep)

-- strings.Cut at one byte.
unfoldable pub cut : Bytes → ℕ → Option (Bytes × Bytes)
cut [] sep = none
cut (c ∷ s) sep =
    let rest = cut s sep in
    if c == sep then some ([], s) else elim rest [ none ↦ none | some (a, b) ↦ some (c ∷ a, b) ]

-- A part with no separator is split off whole.
pub split-append :
    (p s : Bytes) (sep : ℕ) → Lacks sep p → split (p ++ (sep ∷ s)) sep ≡ p ∷ split s sep
unfolding split
split-append [] s sep h = ground arith
split-append (c ∷ p) s sep (hc, hp) = rw (==_ne c sep hc, split-append p s sep hp)

pub split_whole : (p : Bytes) (sep : ℕ) → Lacks sep p → split p sep ≡ p ∷ []
unfolding split
split_whole [] sep h = refl
split_whole (c ∷ p) sep (hc, hp) = rw (==_ne c sep hc, split_whole p sep hp)

pub cut-append : (p s : Bytes) (sep : ℕ) → Lacks sep p → cut (p ++ (sep ∷ s)) sep ≡ some (p, s)
unfolding cut
cut-append [] s sep h = ground arith
cut-append (c ∷ p) s sep (hc, hp) = rw (==_ne c sep hc, cut-append p s sep hp)

-- Splitting a join gives the parts back, if there is one and none holds the separator.
pub split-join :
    (p : Bytes) (ps : List Bytes) (sep : ℕ)
    → All (Lacks sep) (p ∷ ps)
    → split (join (p ∷ ps) sep) sep ≡ p ∷ ps
unfolding join
split-join p [] sep (hp, hps) = split_whole p sep hp
split-join p (q ∷ ps) sep (hp, hps) = rw (split-append p _ sep hp, split-join q ps sep hps)

-- strings.Contains for a text of one byte.
unfoldable pub contains : Bytes → ℕ → Bool
contains [] b = false
contains (c ∷ s) b = c == b || contains s b

pub contains-Lacks : (s : Bytes) (b : ℕ) → contains s b ≡ false → Lacks b s
unfolding contains
contains-Lacks [] b h = tt
contains-Lacks (c ∷ s) b h = (ground arith, contains-Lacks s b (ground arith))

pub contains-eq-false : (s : Bytes) (b : ℕ) → Lacks b s → contains s b ≡ false
unfolding contains
contains-eq-false [] b h = refl
contains-eq-false (c ∷ s) b (hc, hs) = rw (==_ne c b hc) (contains-eq-false s b hs)

-- strings.CutSuffix, by the text backwards.
unfoldable pub cut_suffix : Bytes → Bytes → Option Bytes
unfolding cut_prefix
cut_suffix s p = Option.map reverse (cut_prefix (reverse s) (reverse p))

-- strings.HasSuffix
abbrev pub has_suffix : Bytes → Bytes → Bool
has_suffix s p = is_some (cut_suffix s p)

pub cut_suffix-append : (s p : Bytes) → cut_suffix (s ++ p) p ≡ some s
unfolding cut_suffix
cut_suffix-append s p =
    rw (reverse-append s p, cut_prefix-append (reverse p) (reverse s)) (ap some (reverse-reverse s))

pub cut_suffix_sound : (s p r : Bytes) → cut_suffix s p ≡ some r → s ≡ r ++ p
unfolding cut_suffix
cut_suffix_sound s p r h = elim (Option-cases (cut_prefix (reverse s) (reverse p))) [
  | inl e ↦ cc (rw e at h)
  | inr (x, e) ↦
      s
      ≡⟨ sym (reverse-reverse s) ⟩ reverse (reverse s)
      ≡⟨ ap reverse (cut_prefix_sound (reverse s) (reverse p) x e) ⟩ reverse (reverse p ++ x)
      ≡⟨ reverse-append (reverse p) x ⟩ reverse x ++ reverse (reverse p)
      ≡⟨ ap (λ t. reverse x ++ t) (reverse-reverse p) ⟩ reverse x ++ p
      ≡⟨ cc (rw e at h) ⟩ r ++ p ∎
]

-- Only an empty list of parts is impossible.
pub split_cons : (s : Bytes) (sep : ℕ) → (p : Bytes) × (ps : List Bytes) × (split s sep ≡ p ∷ ps)
unfolding split
split_cons [] sep = ([], [], refl)
split_cons (c ∷ s) sep = elim (Bool-cases (c == sep)) [
  | inl e ↦ ([], split s sep, rw e)
  | inr e ↦ let (p, ps, h) = split_cons s sep in (c ∷ p, ps, rw (e, h))
]

-- A separator at the start or at the end leaves an empty part.
pub split_leading : (s : Bytes) (sep : ℕ) → split (sep ∷ s) sep ≡ [] ∷ split s sep
unfolding split
split_leading s sep = rw (==_self sep)

pub split_trailing : (s : Bytes) (sep : ℕ) → split (s ++ sep ∷ []) sep ≡ split s sep ++ [] ∷ []
unfolding split
split_trailing [] sep = rw (==_self sep)
split_trailing (c ∷ s) sep = elim (Bool-cases (c == sep)) [
  | inl e ↦ rw (e, split_trailing s sep)
  | inr e ↦ let (p, ps, h) = split_cons s sep in rw (e, split_trailing s sep, h)
]

join-cons_head :
    (c : ℕ) (p : Bytes) (ps : List Bytes) (sep : ℕ)
    → join ((c ∷ p) ∷ ps) sep ≡ c ∷ join (p ∷ ps) sep
unfolding join
join-cons_head c p [] sep = refl
join-cons_head c p (q ∷ ps) sep = refl

-- The parts make up the text again.
pub join-split : (s : Bytes) (sep : ℕ) → join (split s sep) sep ≡ s
unfolding split join
join-split [] sep = refl
join-split (c ∷ s) sep = elim (Bool-cases (c == sep)) [
  | inl e ↦
      let (p, ps, h) = split_cons s sep in rw (e, h) (cc (join-split s sep, h, eq_of_== c sep e))
  | inr e ↦
      let (p, ps, h) = split_cons s sep in
      rw (e, h) (cc (join-split s sep, h, join-cons_head c p ps sep))
]
