-- ===== src/Files/Outcomes/Kept.antt =====
-- What a write stores, and what dropping the blob that it displaced leaves.
use stratus_backend.Prelude.{
  ℕ, ◌≤◌, ◌≡◌, refl, sym, subst, ap, true, false, List, [], ◌∷◌, ◌++◌, Option, inl, inr, Bool-cases,
  arith, All, length,
}
use stratus_backend.Prelude.Text.{Bytes, codes, beq, beq_self, beq_sound, has_prefix}
use stratus_backend.Prelude.Result.{Result, ok, err}
use stratus_backend.Files.World.{Env, File, Object, Part, Tables, World, FilesFault, digest}
use stratus_backend.Files.Action.{◌>>◌, pure, try}
use stratus_backend.Files.Key.{derived_prefix}
use stratus_backend.Files.Store.{
  find_object, put_object, delete_object, store_put, store_delete, store_list,
}
use stratus_backend.Files.Service.{delete_listed, drop_blob, drop_superseded, store_blob}
use stratus_backend.Files.Rules.{
  Runs, Runs-pure, Runs-gets, Runs-if, Runs-bind, Runs-demand, Runs-post, Runs-fact, Runs-try,
  Caught,
}
use stratus_backend.Files.Rules.Calls.{Runs-store_read, Runs-store_call, About, Known}
use stratus_backend.Files.Count.{held}
use stratus_backend.Files.Held.Tree.{gives}
use stratus_backend.Files.Sound.Blobs.{IsPlaced, absurd_bool}
use stratus_backend.Files.Sound.Calls.{IsDerived, where_-IsDerived}
use stratus_backend.Files.Outcomes.{Runs-any}
use stratus_backend.Files.Outcomes.Rows.{HasRow, HasBlob, HasBlob-without}

-- Nothing is known.
abbrev pub Open : World → Type 0
Open w = Unit {0}

-- The row of the file, and its blob.
abbrev pub Holding : File → Bytes → About
Holding f content t os ps = HasRow f t.rows × HasBlob f.blob_key content os

-- What a file says of the content that it was made from.
pub record Describes (env : Env) (owner path content : Bytes) (f : File) : Type 0 where
  pub owned : f.owner ≡ owner
  pub placed : f.path ≡ path
  pub sized : f.size ≡ length content
  pub tagged : f.etag ≡ digest env content

module _ (env : Env) where
  put-HasBlob :
      (key body : Bytes) (size : Option ℕ)
      → Runs Open
          (store_put env key body size)
          (λ o w. HasBlob key body w.objects × (o.content ≡ body))
          Open
  unfolding store_put put_object find_object
  put-HasBlob key body size =
      Runs-bind {R = λ o w. Open w × ((o.key ≡ key) × (o.content ≡ body))} _ _
        (Runs-bind {R = λ _. Open} _ _ (Runs-demand _ _ (λ _ w p. p) (λ w p. p))
          (λ _. Runs-gets _ (λ w p. (p, (refl, refl)))))
        (λ o. Runs-fact _ _ (λ e.
          Runs-bind {R = λ _ w. HasBlob key body w.objects} _ _
            (Runs-store_call env (λ _ _ _. Unit {0}) (λ _ os _. HasBlob key body os)
              (λ _ _ _. Unit {0}) (put_object o)
              (λ w p. record { object = o; found = rw (e.0, beq_self key) refl; same = e.1 })
              (λ w p. tt) (λ w p. tt))
            (λ _. Runs-pure o (λ w p. (p, e.1)))))

  pub blob-HasBlob :
      (owner path body : Bytes) (size : Option ℕ) (mime_type : Bytes)
      → Runs Open
          (store_blob env owner path body size mime_type)
          (λ f w. HasBlob f.blob_key body w.objects × Describes env owner path body f)
          Open
  unfolding store_blob
  blob-HasBlob owner path body size mime_type = Runs-bind {R = λ _. Open} _ _ (Runs-any _) (λ key.
      Runs-bind _ _ (put-HasBlob key body size) (λ o. Runs-pure _ (λ w p.
        (p.0, record { owned = refl; placed = refl; sized = ap length p.1; tagged = refl }))))

  module _ (f : File) (content : Bytes)
      (original : has_prefix f.blob_key derived_prefix ≡ false) where
    delete-Holding :
        (d : Bytes)
        → beq d f.blob_key ≡ false
        → Runs
            (Known (Holding f content))
            (store_delete env d)
            (λ _. Known (Holding f content))
            (Known (Holding f content))
    unfolding store_delete delete_object
    delete-Holding d e =
        Runs-store_call env (Holding f content) (Holding f content) (Holding f content)
          (delete_object d) (λ w p. (p.0, HasBlob-without f.blob_key d content w.objects e p.1))
          (λ w p. p) (λ w p. p)

    derived_other : (d : Bytes) → has_prefix d derived_prefix ≡ true → beq d f.blob_key ≡ false
    derived_other d e = elim (Bool-cases (beq d f.blob_key)) [
      | inl g ↦ absurd_bool e (
          subst (λ k. has_prefix k derived_prefix ≡ false) (sym (beq_sound d f.blob_key g))
            original)
      | inr g ↦ g
    ]

    listed-Holding :
        (os : List Object)
        → All IsDerived os
        → Runs
            (Known (Holding f content))
            (delete_listed env os)
            (λ _. Known (Holding f content))
            (Known (Holding f content))
    unfolding delete_listed IsDerived
    listed-Holding [] h = Runs-pure _ (λ w p. p)
    listed-Holding (o ∷ os) h =
        Runs-bind {R = λ _. Known (Holding f content)} _ _
          (Runs-bind {R = λ _. Known (Holding f content)} _ _
            (delete-Holding o.key (derived_other o.key h.0))
            (λ _. Runs-store_read env (Holding f content)))
          (λ _. listed-Holding os h.1)

    drop-Holding :
        (key : Bytes)
        → beq key f.blob_key ≡ false
        → Runs
            (Known (Holding f content))
            (drop_blob env key)
            (λ _. Known (Holding f content))
            (Known (Holding f content))
    unfolding drop_blob store_list
    drop-Holding key e =
        Runs-bind {R = λ listing w. Known (Holding f content) w × All IsDerived listing} _ _
          (Runs-bind {R = λ _. Known (Holding f content)} _ _ (delete-Holding key e) (λ _.
            Runs-bind {R = λ _. Known (Holding f content)} _ _
              (Runs-store_read env (Holding f content))
              (λ _. Runs-gets _ (λ w p. (p, where_-IsDerived (key ++ codes "/") w.objects)))))
          (λ listing. Runs-fact _ _ (λ derived. listed-Holding listing derived))

    pub superseded-Holding :
        (key : Bytes)
        → Runs
            (λ w. Known (Holding f content) w × (beq key [] ≡ false → beq key f.blob_key ≡ false))
            (drop_superseded env key)
            (λ _. Known (Holding f content))
            Open
    unfolding drop_superseded
    superseded-Holding key = Runs-fact _ _ (λ other.
        Runs-if (beq key []) (pure tt) (try (drop_blob env key) >> pure tt)
          (λ _. Runs-pure _ (λ w p. p))
          (λ e.
            Runs-bind {R = λ _. Known (Holding f content)} _ _
              (Runs-post _ Open _ either (λ w p. tt) (Runs-try Open _ (drop-Holding key (other e))))
              (λ _. Runs-pure _ (λ w p. p))))
      where
        either :
            (r : Result FilesFault (Unit {0})) (w : World)
            → Caught (λ _. Known (Holding f content)) (Known (Holding f content)) r w
            → Known (Holding f content) w
        either (ok a) w p = p
        either (err e) w p = p

  -- The blob that a write displaces is not its own.
  pub displaced_other :
      (f : File) (superseded : Bytes) (t : Tables) (os : List Object) (ps : List Part)
      → IsPlaced f.blob_key t os ps
      → ((k : Bytes) → gives superseded k ≤ held k t)
      → beq superseded [] ≡ false
      → beq superseded f.blob_key ≡ false
  displaced_other f superseded t os ps p g e = elim (Bool-cases (beq superseded f.blob_key)) [
    | inl h ↦
        let a = g superseded in
        let b : gives superseded superseded ≡ 1 = rw (e, beq_self superseded) refl in
        let c : held superseded t ≡ 0 = rw (beq_sound superseded f.blob_key h) p.unnamed in
        let d : 1 ≤ 0 = omega (arith, a, b, c) in ground (arith, d)
    | inr h ↦ h
  ]
