-- ===== src/Files/Outcomes/Originals.antt =====
-- What the sweep of internal/files/collect.go leaves in the blob store.
use stratus_backend.Prelude.{ℕ, ◌≡◌, refl, ◌∙◌, true, false, List, [], ◌∷◌, inl, inr}
use stratus_backend.Prelude.Int.{ℤ}
use stratus_backend.Prelude.Text.{Bytes, beq_sound, has_prefix}
use stratus_backend.Prelude.Result.{Result, ok, err}
use stratus_backend.Files.World.{Env, Object, World, FilesFault}
use stratus_backend.Files.Action.{Action, Session, pure, alone}
use stratus_backend.Files.Key.{derived_prefix}
use stratus_backend.Files.Repo.{is_nil}
use stratus_backend.Files.Store.{store_list, store_delete, delete_object}
use stratus_backend.Files.Collect.{Collected, trash_orphans, delete_derived, sweep, collect}
use stratus_backend.Files.Rules.{
  Runs, Runs-pure, Runs-gets, Runs-if, Runs-bind, Runs-demand, Runs-post, Post,
}
use stratus_backend.Files.Rules.Calls.{Runs-alone, Runs-store_read, Runs-store_call, About, Known}
use stratus_backend.Files.Count.{present}
use stratus_backend.Files.Sound.Stored.{present-without}
use stratus_backend.Files.Sound.Blobs.{absurd_bool}
use stratus_backend.Files.Sound.Orphans.{AreDerived, where_-AreDerived}
use stratus_backend.Files.Outcomes.{Runs-any}

either_present :
    {A : Type 0} (k : Bytes) (n : ℕ) (x : World × Result FilesFault A)
    → Post (λ _ w. present k w.objects ≡ n) (λ w. present k w.objects ≡ n) x
    → present k x.0.objects ≡ n
either_present k n (w, ok a) h = h
either_present k n (w, err e) h = h

module _ (env : Env) (k : Bytes) (n : ℕ) (original : has_prefix k derived_prefix ≡ false) where
  abbrev Kept : About
  Kept t os ps = present k os ≡ n

  kept-alone :
      {A : Type 0} (m : Action Session A)
      → Runs (Known Kept) (alone m) (λ _. Known Kept) (Known Kept)
  kept-alone m =
      Runs-alone Kept (λ _. Kept) Kept m
        (λ w p. Runs-post _ _ _ (λ _ s q. p) (λ s q. p) (Runs-any m))

  kept_delete :
      (d : Bytes)
      → has_prefix d derived_prefix ≡ true
      → Runs (Known Kept) (store_delete env d) (λ _. Known Kept) (Known Kept)
  unfolding store_delete delete_object
  kept_delete d e =
      Runs-store_call env Kept Kept Kept (delete_object d)
        (λ w p. elim (present-without k d w.objects) [
          | inl (f, q) ↦ let g : d ≡ k = beq_sound d k f in absurd_bool (rw g at e) original
          | inr (f, q) ↦ q ∙ p
        ])
        (λ w p. p) (λ w p. p)

  kept_derived :
      (keys : List Bytes) (os : List Object) (done : Collected)
      → AreDerived os
      → Runs (Known Kept) (delete_derived env keys done os) (λ _. Known Kept) (Known Kept)
  unfolding delete_derived AreDerived
  kept_derived keys [] done h = Runs-pure _ (λ w p. p)
  kept_derived keys (o ∷ os) done h =
      Runs-bind {R = λ _. Known Kept} _ _ (Runs-gets _ (λ w p. p)) (λ kept.
        Runs-if kept _ _ (λ _. kept_derived keys os done h.1)
          (λ _.
            Runs-bind {R = λ _. Known Kept} _ _ (kept_delete o.key h.0)
              (λ _. kept_derived keys os _ h.1)))

  kept_orphans :
      (orphans : List Object)
      → Runs (Known Kept) (trash_orphans env orphans) (λ _. Known Kept) (Known Kept)
  unfolding trash_orphans
  kept_orphans orphans =
      Runs-if (is_nil orphans) (pure tt) _ (λ _. Runs-pure _ (λ w p. p))
        (λ _. Runs-bind {R = λ _. Known Kept} _ _ (Runs-gets _ (λ w p. p)) (λ t. kept-alone _))

  kept-collect : (age : ℤ) → Runs (Known Kept) (collect env age) (λ _. Known Kept) (Known Kept)
  unfolding collect sweep store_list
  kept-collect age = Runs-bind {R = λ _. Known Kept} _ _ (kept-alone _) (λ live.
      Runs-bind {R = λ _. Known Kept} _ _ (kept-alone _) (λ trashed.
        Runs-bind {R = λ _. Known Kept} _ _ (Runs-gets _ (λ w p. p)) (λ moment.
          Runs-bind {R = λ _. Known Kept} _ _
            (Runs-bind {R = λ _. Known Kept} _ _ (Runs-store_read env Kept)
              (λ _. Runs-gets _ (λ w p. p)))
            (λ listing.
              Runs-bind {R = λ _. Known Kept} _ _
                (Runs-bind {R = λ _. Known Kept} _ _ (Runs-demand _ _ (λ _ w p. p) (λ w p. p))
                  (λ _. kept_orphans _))
                (λ _. kept_derived _ _ _ (where_-AreDerived _))))))

-- The sweep deletes nothing but what was derived: a key that is not under the prefix of derived objects
-- has as many objects after it as before, whatever the rows say and whichever calls fail.
pub collect-originals :
    (env : Env) (age : ℤ) (k : Bytes) (w : World)
    → has_prefix k derived_prefix ≡ false
    → present k (collect env age w).0.objects ≡ present k w.objects
collect-originals env age k w original =
    either_present k (present k w.objects) (collect env age w)
      ((kept-collect env k (present k w.objects) original age).run w refl)
