-- ===== src/Files/Sound/Blobs.antt =====
-- What each change of the store and of the tables does to the rule of the file layer.
use stratus_backend.Prelude.{
  ℕ, ◌+◌, ◌≤◌, ◌≡◌, ◌⊎◌, refl, Bool, true, false, List, [], ◌∷◌, ◌++◌, some, inl, inr, Bool-cases,
  arith,
}
use stratus_backend.Prelude.Text.{Bytes, codes, beq, beq_self, beq_sound, has_prefix, cut_prefix}
use stratus_backend.Files.World.{
  Env, File, Object, Part, Tables, Kind, kind_image, kind_audio, kind_video, kind_other,
}
use stratus_backend.Files.Key.{
  new_blob_key, kind_of, by_extension, derived_prefix, is_one_of, image_extensions,
  video_extensions, audio_extensions, document_extensions,
}
use stratus_backend.Files.Store.{without_object, without_part, find_part}
use stratus_backend.Files.Count.{bit, count-cons, held, present, started, has_key}
use stratus_backend.Files.Held.Tree.{IsLess, Replaces, gives}
use stratus_backend.Files.Sound.{IsSound, IsNew}
use stratus_backend.Files.Sound.Stored.{present-without, started-without, started-found}

-- A key that no row names yet, of an object that is there, and which is not derived.
pub record IsPlaced (key : Bytes) (t : Tables) (os : List Object) (ps : List Part) : Type 0 where
  pub sound : IsSound t os ps
  pub unnamed : held key t ≡ 0
  pub there : present key os ≡ 1
  pub not_derived : has_prefix key derived_prefix ≡ false

bit_self : (k : Bytes) → bit (beq k k) ≡ 1
bit_self k = rw (beq_self k) refl

pub absurd_bool : {b : Bool} {A : Type 0} → b ≡ true → b ≡ false → A
absurd_bool {b} e f = ground (arith, e, f)

-- The key of an object is that key, or not.
key_cases : (d k : Bytes) → (d ≡ k) ⊎ ((beq d k ≡ false) × (bit (beq d k) ≡ 0))
key_cases d k = elim (Bool-cases (beq d k)) [
  | inl e ↦ inl (beq_sound d k e)
  | inr e ↦ inr (e, rw e refl)
]

pub IsSound-less :
    (t u : Tables) (os : List Object) (ps : List Part)
    → IsSound t os ps
    → IsLess t u
    → IsSound u os ps
IsSound-less t u os ps s l = record {
  backed = λ k. let a = s.backed k in let b = l k in omega (arith, a, b);
  single = s.single;
  original = λ k d. let a = s.original k d in let b = l k in omega (arith, a, b);
}

pub IsSound-delete :
    (d : Bytes) (t : Tables) (os : List Object) (ps : List Part)
    → IsSound t os ps
    → held d t ≡ 0
    → IsSound t (without_object d os) ps
IsSound-delete d t os ps s z = record {
  backed = λ k.
      let a = s.backed k in
      elim (present-without k d os) [
        | inl (e, p) ↦ let y : held k t ≡ 0 = rw (beq_sound d k e) at z in omega (arith, y)
        | inr (e, p) ↦ omega (arith, a, p)
      ];
  single = λ k.
      let a = s.single k in
      elim (present-without k d os) [
        | inl (e, p) ↦ omega (arith, a, p)
        | inr (e, p) ↦ omega (arith, a, p)
      ];
  original = s.original;
}

pub IsPlaced-put :
    (o : Object) (t : Tables) (os : List Object) (ps : List Part)
    → IsSound t os ps
    → IsNew o.key os ps
    → has_prefix o.key derived_prefix ≡ false
    → IsPlaced o.key t (o ∷ without_object o.key os) ps
IsPlaced-put o t os ps s n d = record {
  sound = record {
    backed = λ k.
        let a = s.backed k in
        let c = count-cons (has_key k) o (without_object o.key os) in
        elim (present-without k o.key os) [
          | inl (e, p) ↦
              let y : present k os + started k ps ≡ 0 = rw (beq_sound o.key k e) at n in
              omega (arith, a, y)
          | inr (e, p) ↦ omega (arith, a, p, c)
        ];
    single = λ k.
        let a = s.single k in
        let c = count-cons (has_key k) o (without_object o.key os) in
        elim (present-without k o.key os) [
          | inl (e, p) ↦
              let y : present k os + started k ps ≡ 0 = rw (beq_sound o.key k e) at n in
              let b : bit (has_key k o) ≡ 1 = rw e refl in omega (arith, p, c, y, b)
          | inr (e, p) ↦ let b : bit (has_key k o) ≡ 0 = rw e refl in omega (arith, a, p, c, b)
        ];
    original = s.original;
  };
  unnamed = let a = s.backed o.key in omega (arith, a, n);
  there =
      let c = count-cons (has_key o.key) o (without_object o.key os) in
      let b = bit_self o.key in
      elim (present-without o.key o.key os) [
        | inl (e, p) ↦ omega (arith, p, c, b)
        | inr (e, p) ↦ absurd_bool (beq_self o.key) e
      ];
  not_derived = d;
}

pub IsSound-abort :
    (d id : Bytes) (t : Tables) (os : List Object) (ps : List Part)
    → IsSound t os ps
    → IsSound t os (without_part d id ps)
IsSound-abort d id t os ps s = record {
  backed = s.backed;
  single = λ k. let a = s.single k in let b = started-without k d id ps in omega (arith, a, b);
  original =
      λ k h. let a = s.original k h in let b = started-without k d id ps in omega (arith, a, b);
}

pub IsSound-start :
    (p : Part) (t : Tables) (os : List Object) (ps : List Part)
    → IsSound t os ps
    → IsNew p.key os ps
    → has_prefix p.key derived_prefix ≡ false
    → IsSound t os (p ∷ ps)
IsSound-start p t os ps s n d = record {
  backed = s.backed;
  single = λ k.
      let a = s.single k in
      let c = count-cons (λ q. beq q.key k) p ps in
      elim (key_cases p.key k) [
        | inl e ↦
            let y : present k os + started k ps ≡ 0 = rw e at n in
            let b : bit (beq p.key k) ≡ 1 = rw e (bit_self k) in omega (arith, y, b, c)
        | inr (e, b) ↦ omega (arith, a, b, c)
      ];
  original = λ k h.
      let a = s.original k h in
      let c = count-cons (λ q. beq q.key k) p ps in
      elim (key_cases p.key k) [
        | inl e ↦ absurd_bool h (rw e at d)
        | inr (e, b) ↦ omega (arith, a, b, c)
      ];
}

-- An upload is published under a key that no object had.
pub IsPlaced-publish :
    (o : Object) (id : Bytes) (p : Part) (t : Tables) (os : List Object) (ps : List Part)
    → find_part o.key id ps ≡ some p
    → IsSound t os ps
    → IsPlaced o.key t (o ∷ without_object o.key os) (without_part o.key id ps)
IsPlaced-publish o id p t os ps f s =
    let g = started-found o.key id p ps f in
    let a = s.single o.key in
    IsPlaced-put o t os (without_part o.key id ps) (IsSound-abort o.key id t os ps s)
      (omega (arith, g, a))
      (elim (Bool-cases (has_prefix o.key derived_prefix)) [
        | inl e ↦
            let b = s.original o.key e in let c : 1 ≤ 0 = omega (arith, b, g) in ground (arith, c)
        | inr e ↦ e
      ])

-- A row takes the blob, and gives up the one that it held, which no row then names.
pub placed-replace :
    (f : File) (superseded : Bytes) (t u : Tables) (os : List Object) (ps : List Part)
    → IsPlaced f.blob_key t os ps
    → Replaces f superseded t u
    → IsSound u os ps × (beq superseded [] ≡ false → held superseded u ≡ 0)
placed-replace f superseded t u os ps p r = (
  record {
    backed = λ k.
        let a = r k in
        let b = p.sound.backed k in
        elim (key_cases f.blob_key k) [
          | inl e ↦
              let x : held k t ≡ 0 = rw e at p.unnamed in
              let y : present k os ≡ 1 = rw e at p.there in
              let z : bit (beq f.blob_key k) ≡ 1 = rw e (bit_self k) in omega (arith, a, x, y, z)
          | inr (e, z) ↦ omega (arith, a, b, z)
        ];
    single = p.sound.single;
    original = λ k h.
        let a = r k in
        let b = p.sound.original k h in
        elim (key_cases f.blob_key k) [
          | inl e ↦ absurd_bool h (rw e at p.not_derived)
          | inr (e, z) ↦ omega (arith, a, b, z)
        ];
  },
  λ h.
      let a = r superseded in
      let b = p.sound.backed superseded in
      let c = p.sound.single superseded in
      let d : gives superseded superseded ≡ 1 = rw h (bit_self superseded) in
      elim (key_cases f.blob_key superseded) [
        | inl e ↦
            let x : held superseded t ≡ 0 = rw e at p.unnamed in
            let z : bit (beq f.blob_key superseded) ≡ 1 = rw e (bit_self superseded) in
            omega (arith, a, d, x, z)
        | inr (e, z) ↦ omega (arith, a, b, c, d, z)
      ],
)

-- The names of new blobs begin with a kind, and none of the kinds is that of what is derived.
IsKind : Bytes → Type 0
IsKind kind = (rest : Bytes) → has_prefix (kind ++ (codes "/" ++ rest)) derived_prefix ≡ false

by_extension-IsKind : (e : Bytes) → IsKind (by_extension e)
unfolding by_extension cut_prefix IsKind
by_extension-IsKind e rest = elim (Bool-cases (is_one_of image_extensions e)) [
  | inl a ↦ rw a refl
  | inr a ↦ elim (Bool-cases (is_one_of video_extensions e)) [
    | inl b ↦ rw (a, b) refl
    | inr b ↦ elim (Bool-cases (is_one_of audio_extensions e)) [
      | inl c ↦ rw (a, b, c) refl
      | inr c ↦ elim (Bool-cases (is_one_of document_extensions e)) [
        | inl d ↦ rw (a, b, c, d) refl
        | inr d ↦ rw (a, b, c, d) refl
      ]
    ]
  ]
]

kind_of-IsKind : (e : Bytes) (kind : Kind) → IsKind (kind_of e kind)
unfolding kind_of cut_prefix IsKind
kind_of-IsKind e kind_image rest = refl
kind_of-IsKind e kind_video rest = refl
kind_of-IsKind e kind_audio rest = refl
kind_of-IsKind e kind_other rest = by_extension-IsKind e rest

pub new_blob_key-original :
    (env : Env) (t : ℕ) (name : Bytes) (kind : Kind)
    → has_prefix (new_blob_key env t name kind) derived_prefix ≡ false
unfolding new_blob_key IsKind
new_blob_key-original env t name kind = kind_of-IsKind _ kind _
