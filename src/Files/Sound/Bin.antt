-- ===== src/Files/Sound/Bin.antt =====
-- The operations of internal/files/trash.go keep the rule of the file layer, whatever fails.
use stratus_backend.Prelude.{ℕ, suc, ◌+◌, ◌≤◌, ◌≡◌, refl, false, List, [], ◌∷◌, arith}
use stratus_backend.Prelude.Int.{ℤ}
use stratus_backend.Prelude.Text.{Bytes, beq, beq_self}
use stratus_backend.Files.World.{Env, File, Trashed, Object, Part, Tables, conflict}
use stratus_backend.Files.Action.{◌>>=◌, ◌>>◌, pure, raise, tx}
use stratus_backend.Files.Repo.Trash.{expired_trash, trashed_in}
use stratus_backend.Files.Service.{drop_blob}
use stratus_backend.Files.Trash.{
  drop_rows, destroy_trashed, destroy_each, empty_trash, announce_all, restored, restore,
  batches_of,
}
use stratus_backend.Files.Rules.{
  Runs, Runs-pure, Runs-raise, Runs-gets, Runs-if, Runs-bind, Runs-post, Runs-pre, Runs-both,
}
use stratus_backend.Files.Rules.Calls.{Runs-tx, About, Known}
use stratus_backend.Files.Count.{bit, count, count-cons, held, holds_trashed}
use stratus_backend.Files.Held.{Any}
use stratus_backend.Files.Held.Tree.{IsLess}
use stratus_backend.Files.Held.Bin.{Runs-forget_batch}
use stratus_backend.Files.Held.Restored.{Runs-restoring}
use stratus_backend.Files.Sound.{IsSound}
use stratus_backend.Files.Sound.Blobs.{IsSound-less}
use stratus_backend.Files.Sound.Calls.{Sound, Runs-drop_blob, keeps_drop_blob}
use stratus_backend.Files.Sound.Writes.{Sound-tx, Sound-alone, IsLess-statement, Runs-written}

-- Rows that left the trash: what they held is held at most once with what is left.
IsForgotten : List Trashed → About
IsForgotten rows t os ps =
    IsSound t os ps × ((k : Bytes) → held k t + count (holds_trashed k) rows ≤ 1)

forgotten :
    (t u : Tables) (os : List Object) (ps : List Part) (rows : List Trashed)
    → IsSound t os ps
    → ((k : Bytes) → held k u + count (holds_trashed k) rows ≤ held k t)
    → IsForgotten rows u os ps
unfolding IsForgotten
forgotten t u os ps rows s h = (
  IsSound-less t u os ps s (λ k. let a = h k in omega (arith, a)),
  λ k. let a = h k in let b = s.backed k in let c = s.single k in omega (arith, a, b, c),
)

module _ (env : Env) where
  Runs-drop_rows :
      (files bytes : ℕ) (rows : List Trashed)
      → Runs (Known (IsForgotten rows)) (drop_rows env files bytes rows) (λ _. Sound) Sound
  unfolding drop_rows IsForgotten
  Runs-drop_rows files bytes [] = Runs-pure _ (λ w p. p.0)
  Runs-drop_rows files bytes (t ∷ ts) =
      Runs-if t.file.is_dir (drop_rows env files bytes ts)
        (drop_blob env t.file.blob_key >> drop_rows env (suc files) (bytes + t.file.size) ts)
        (λ _.
          Runs-pre _ _ (λ w p. (p.0, λ k. rest t ts k w.tables (p.1 k)))
            (Runs-drop_rows files bytes ts))
        (λ e.
          Runs-bind {R = λ _. Known (IsForgotten ts)} _ _
            (Runs-pre _ _
              (λ w p. (
                (p.0, unnamed t ts w.tables e (p.1 t.file.blob_key)),
                λ k. rest t ts k w.tables (p.1 k),
              ))
              (Runs-post _ _ _ (λ _ w p. p) (λ w p. p.0)
                (Runs-both _ (Runs-drop_blob env t.file.blob_key) (
                  keeps_drop_blob env (λ v. (k : Bytes) → held k v + count (holds_trashed k) ts ≤ 1)
                    t.file.blob_key))))
            (λ _. Runs-drop_rows (suc files) (bytes + t.file.size) ts))
    where
      rest :
          (t : Trashed) (ts : List Trashed) (k : Bytes) (v : Tables)
          → held k v + count (holds_trashed k) (t ∷ ts) ≤ 1
          → held k v + count (holds_trashed k) ts ≤ 1
      rest t ts k v h = let a = count-cons (holds_trashed k) t ts in omega (arith, a, h)

      unnamed :
          (t : Trashed) (ts : List Trashed) (v : Tables)
          → t.file.is_dir ≡ false
          → held t.file.blob_key v + count (holds_trashed t.file.blob_key) (t ∷ ts) ≤ 1
          → held t.file.blob_key v ≡ 0
      unnamed t ts v e h =
          let a = count-cons (holds_trashed t.file.blob_key) t ts in
          let b : bit (holds_trashed t.file.blob_key t) ≡ 1 =
            simp (e, beq_self t.file.blob_key) refl in
          omega (arith, a, b, h)

  pub Runs-destroy_trashed :
      (owner batch : Bytes) → Runs Sound (destroy_trashed env owner batch) (λ _. Sound) Sound
  unfolding destroy_trashed
  Runs-destroy_trashed owner batch =
      Runs-bind {R = λ rows. Known (IsForgotten rows)} _ _
        (Runs-tx env IsSound IsForgotten _ (λ w s.
          Runs-post _ Any _ (λ rows u h. forgotten w.tables u.tables w.objects w.parts rows s h)
            (λ u h. tt) (Runs-forget_batch env w.tables owner batch)))
        (Runs-drop_rows 0 0)

  Runs-destroy_each :
      (batches : List (Bytes × Bytes)) → Runs Sound (destroy_each env batches) (λ _. Sound) Sound
  unfolding destroy_each
  Runs-destroy_each [] = Runs-pure _ (λ w p. p)
  Runs-destroy_each ((batch, owner) ∷ rest) =
      Runs-bind {R = λ _. Sound} _ _ (Runs-destroy_trashed owner batch)
        (λ _. Runs-destroy_each rest)

  pub Runs-empty_trash : (before : ℤ) → Runs Sound (empty_trash env before) (λ _. Sound) Sound
  unfolding empty_trash expired_trash
  Runs-empty_trash before =
      Runs-bind {R = λ _. Sound} _ _
        (Sound-alone env _ (λ t.
          Runs-bind {R = λ _ s. IsLess t s.tables} _ _ (IsLess-statement env t)
            (λ _. Runs-gets _ (λ s p. p))))
        (λ ts. Runs-destroy_each (batches_of [] ts))

  Runs-announce_all : (fs : List File) → Runs Sound (announce_all fs) (λ _. Sound) Sound
  unfolding announce_all
  Runs-announce_all [] = Runs-pure _ (λ w p. p)
  Runs-announce_all (f ∷ fs) =
      Runs-bind {R = λ _. Sound} _ _ (Runs-written env f) (λ _. Runs-announce_all fs)

  pub Runs-restore : (owner batch : Bytes) → Runs Sound (restore env owner batch) (λ _. Sound) Sound
  unfolding restore
  Runs-restore owner batch =
      Runs-if (beq owner []) (raise conflict)
        (tx env (trashed_in env owner batch >>= restored env owner batch) >>= λ answer.
          announce_all answer.1 >> pure answer.0)
        (λ _. Runs-raise _ (λ w p. p))
        (λ _.
          Runs-bind {R = λ _. Sound} _ _ (Sound-tx env _ (λ t. Runs-restoring env t owner batch))
            (λ answer.
              Runs-bind {R = λ _. Sound} _ _ (Runs-announce_all answer.1)
                (λ _. Runs-pure _ (λ w p. p))))
