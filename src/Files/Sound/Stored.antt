-- ===== src/Files/Sound/Stored.antt =====
-- What the calls of the blob store do to its keys.
use stratus_backend.Prelude.{
  ◌+◌, ◌≤◌, ◌≡◌, ◌⊎◌, refl, true, false, not, List, [], ◌∷◌, some, inl, inr, Bool-cases, and_true,
  arith,
}
use stratus_backend.Prelude.Text.{Bytes, beq, beq_sound}
use stratus_backend.Files.World.{Object, Part}
use stratus_backend.Files.Repo.{where_}
use stratus_backend.Files.Store.{without_object, without_part, extend_part, is_part, find_part}
use stratus_backend.Files.Held.{not-true}
use stratus_backend.Files.Count.{
  bit, count, present, started, has_key, count-where_none, count-where_all, count-where_le,
}

pub beq_sym : (a b : Bytes) → beq a b ≡ beq b a
beq_sym a b = elim (Bool-cases (beq a b)) [
  | inl e ↦ rw (beq_sound a b e) refl
  | inr e ↦ elim (Bool-cases (beq b a)) [
    | inl f ↦ rw (beq_sound b a f) refl
    | inr f ↦ rw (e, f) refl
  ]
]

same_key : (a k d : Bytes) → beq d k ≡ true → not (beq a d) ≡ true → beq a k ≡ false
same_key a k d e h = let q : d ≡ k = beq_sound d k e in not-true (beq a k) (rw q at h)

other_key : (a k d : Bytes) → beq d k ≡ false → beq a k ≡ true → not (beq a d) ≡ true
other_key a k d e h = rw (beq_sound a k h, beq_sym k d, e) refl

-- Deleting a key leaves none of it, and every other as it was.
pub present-without :
    (k d : Bytes) (os : List Object)
    → ((beq d k ≡ true) × (present k (without_object d os) ≡ 0))
      ⊎ ((beq d k ≡ false) × (present k (without_object d os) ≡ present k os))
present-without k d os = elim (Bool-cases (beq d k)) [
  | inl e ↦ inl (e, count-where_none (has_key k) _ os (λ o h. same_key o.key k d e h))
  | inr e ↦ inr (e, count-where_all (has_key k) _ os (λ o h. other_key o.key k d e h))
]

pub started-without :
    (k d id : Bytes) (ps : List Part) → started k (without_part d id ps) ≤ started k ps
started-without k d id ps = count-where_le _ _ ps

pub started-extend :
    (k d id more : Bytes) (ps : List Part) → started k (extend_part d id more ps) ≡ started k ps
unfolding count extend_part
started-extend k d id more [] = refl
started-extend k d id more (p ∷ ps) = elim (Bool-cases (is_part d id p)) [
  | inl e ↦ rw e refl
  | inr e ↦ rw (e, started-extend k d id more ps) refl
]

-- An upload that is found is one of its key, and goes when it is published.
pub started-found :
    (d id : Bytes) (p : Part) (ps : List Part)
    → find_part d id ps ≡ some p
    → started d (without_part d id ps) + 1 ≤ started d ps
unfolding count find_part where_
started-found d id p [] h = ground (arith, h)
started-found d id p (q ∷ ps) h = elim (Bool-cases (is_part d id q)) [
  | inl e ↦
      let h' = and_true (beq q.key d) (beq q.id id) e in
      let z : bit (beq q.key d) ≡ 1 = rw h'.0 refl in
      let l = count-where_le (λ x. beq x.key d) (λ x. not (is_part d id x)) ps in
      rw e (omega (arith, z, l))
  | inr e ↦
      let h' : find_part d id ps ≡ some p = rw e at h in
      rw e (omega (arith, started-found d id p ps h'))
]
