-- ===== src/Files/Sound/Sweep.antt =====
-- The sweep of internal/files/collect.go keeps the rule of the file layer, whatever fails.
use stratus_backend.Prelude.{◌≡◌, sym, List, [], ◌∷◌, ◌++◌, subst, arith}
use stratus_backend.Prelude.Int.{ℤ}
use stratus_backend.Prelude.Text.{Bytes}
use stratus_backend.Files.World.{Env, Object, World}
use stratus_backend.Files.Action.{pure, alone}
use stratus_backend.Files.Repo.{is_nil, blob_keys}
use stratus_backend.Files.Repo.Trash.{trash_keys}
use stratus_backend.Files.Store.{store_list}
use stratus_backend.Files.Collect.{
  Collected, rows_of, trash_orphans, delete_derived, sweep, collect,
}
use stratus_backend.Files.Rules.{
  Runs, Runs-pure, Runs-gets, Runs-if, Runs-bind, Runs-demand, Runs-statement, Runs-post, Runs-pre,
}
use stratus_backend.Files.Rules.Calls.{Runs-alone, Runs-store_read, Known}
use stratus_backend.Files.Held.{At}
use stratus_backend.Files.Held.Bin.{Runs-trash_rows}
use stratus_backend.Files.Sound.{IsSound}
use stratus_backend.Files.Sound.Calls.{Sound, Runs-delete-Sound}
use stratus_backend.Files.Sound.Orphans.{
  IsRead, unread_row, MayBeTrashed, IsListing, trashable, trashed-IsSound, IsLive, IsRead-both,
  read-Sound, listed, AreDerived, where_-AreDerived,
}

module _ (env : Env) where
  Runs-trash_orphans :
      (orphans : List Object)
      → Runs (Known (MayBeTrashed orphans)) (trash_orphans env orphans) (λ _. Sound) Sound
  unfolding trash_orphans MayBeTrashed
  Runs-trash_orphans orphans =
      Runs-if (is_nil orphans) (pure tt) _ (λ _. Runs-pure _ (λ w p. first_of orphans w p))
        (λ _. Runs-bind {R = λ _. Known (MayBeTrashed orphans)} _ _ (Runs-gets _ (λ w p. p)) (λ n.
          Runs-alone (MayBeTrashed orphans) (λ _. IsSound) IsSound _
            (λ w p.
              Runs-post _ _ _
                (λ _ s l. trashed-IsSound orphans w.tables s.tables w.objects w.parts p l)
                (λ s l. trashed-IsSound orphans w.tables s.tables w.objects w.parts p l)
                (Runs-trash_rows env w.tables (env.random n) (rows_of orphans) (env.clock n)))))
    where
      first_of : (os : List Object) (w : World) → Known (MayBeTrashed os) w → Sound w
      first_of os w p = p.0

  Runs-delete_derived :
      (keys : List Bytes) (os : List Object) (done : Collected)
      → AreDerived os
      → Runs Sound (delete_derived env keys done os) (λ _. Sound) Sound
  unfolding delete_derived AreDerived
  Runs-delete_derived keys [] done h = Runs-pure _ (λ w p. p)
  Runs-delete_derived keys (o ∷ os) done h =
      Runs-bind {R = λ _. Sound} _ _ (Runs-gets _ (λ w p. p)) (λ kept.
        Runs-if kept _ _ (λ _. Runs-delete_derived keys os done h.1)
          (λ _.
            Runs-bind {R = λ _. Sound} _ _
              (Runs-pre Sound _ (λ w s. (s, let a = s.original o.key h.0 in omega (arith, a)))
                (Runs-delete-Sound env o.key))
              (λ _. Runs-delete_derived keys os _ h.1)))

  Runs-sweep :
      (keys : List Bytes) (moment age : ℤ) (listing : List Object)
      → Runs
          (λ w. Known (IsRead keys) w × IsListing listing w.objects)
          (sweep env keys moment age listing)
          (λ _. Sound)
          Sound
  unfolding sweep IsRead
  Runs-sweep keys moment age listing =
      Runs-bind {R = λ _. Sound} _ _
        (Runs-bind _ _
          (Runs-demand _ _
            (λ _ w p. trashable keys moment age listing w.tables w.objects w.parts p.0 p.1)
            (λ w p. p.0.0))
          (λ _. Runs-trash_orphans _))
        (λ _. Runs-delete_derived _ _ _ (where_-AreDerived _))

  -- The keys of the rows, and then those of the trash.
  Runs-blob_keys : Runs Sound (alone (blob_keys env)) (λ live. Known (IsLive live)) Sound
  unfolding blob_keys IsLive
  Runs-blob_keys = Runs-alone IsSound IsLive IsSound _ (λ w p.
      Runs-bind {R = λ _. At w.tables} _ _
        (Runs-post _ _ _ (λ _ s e. e) (λ s e. subst (λ t. IsSound t w.objects w.parts) (sym e) p)
          (Runs-statement env (λ t. t ≡ w.tables)))
        (λ _. Runs-gets _ (λ s e.
          (subst (λ t. IsSound t w.objects w.parts) (sym e) p, λ k. unread_row s.tables.rows k))))

  Runs-trash_keys :
      (live : List Bytes)
      → Runs
          (Known (IsLive live))
          (alone (trash_keys env))
          (λ trashed. Known (IsRead (live ++ trashed)))
          Sound
  unfolding trash_keys IsLive IsRead
  Runs-trash_keys live =
      Runs-alone (IsLive live) (λ trashed. IsRead (live ++ trashed)) IsSound _
        (λ w p.
          Runs-bind {R = λ _. At w.tables} _ _
            (Runs-post _ _ _ (λ _ s e. e)
              (λ s e. subst (λ t. IsSound t w.objects w.parts) (sym e) p.0)
              (Runs-statement env (λ t. t ≡ w.tables)))
            (λ _. Runs-gets _ (λ s e.
              IsRead-both live s.tables w.objects w.parts
                (subst (λ t. IsLive live t w.objects w.parts) (sym e) p))))

  -- Collect: an original that nothing names goes to the trash, and nothing that is named is touched.
  pub Runs-collect : (age : ℤ) → Runs Sound (collect env age) (λ _. Sound) Sound
  unfolding collect store_list
  Runs-collect age = Runs-bind _ _ Runs-blob_keys (λ live.
      Runs-bind _ _ (Runs-trash_keys live) (λ trashed.
        Runs-bind {R = λ _. Known (IsRead (live ++ trashed))} _ _ (Runs-gets _ (λ w p. p))
          (λ moment.
            Runs-bind
              {R = λ listing w. Known (IsRead (live ++ trashed)) w × IsListing listing w.objects} _
              _
              (Runs-bind {R = λ _. Known (IsRead (live ++ trashed))} _ _
                (Runs-post _ _ _ (λ _ w p. p) (λ w p. read-Sound _ w p)
                  (Runs-store_read env (IsRead (live ++ trashed))))
                (λ _. Runs-gets _ (λ w p. (p, listed w.objects))))
              (λ listing. Runs-sweep (live ++ trashed) moment age listing))))
