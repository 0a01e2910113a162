-- ===== src/Db/Migrate/Progress.antt =====
-- How far a run of the migrations gets.
use stratus_backend.Prelude.{
  ◌≡◌, refl, true, false, ap, subst, List, [], ◌∷◌, ◌++◌, Option, none, some, ◌⊎◌, inl, inr, ltb→lt,
  not-ltb→le, Bool-cases, Option-cases, if◌then◌else◌,
}
use stratus_backend.Prelude.Int.{ℤ, leb_ℤ, ltb_ℤ, ◌≤ℤ◌, ◌<ℤ◌}
use stratus_backend.Prelude.Text.{Bytes}
use stratus_backend.Prelude.Result.{Result, ok, err, Result-cases}
use stratus_backend.Db.Migrate.Statements.{statements}
use stratus_backend.Db.Migrate.{
  Migration, Engine, Database, MigrateFault, failed, too_new, current_version, exec_all, recorded,
  apply, apply_pending, migrate, latest, unready,
}

-- The migrations that a run from `current` has to apply.
unfoldable pub pending : ℤ → List Migration → List Migration
pending current [] = []
pending current (m ∷ ms) =
    let rest = pending current ms in if leb_ℤ m.version current then rest else m ∷ rest

abbrev pub versions_of : List Migration → List ℤ
versions_of [] = []
versions_of (m ∷ ms) = m.version ∷ versions_of ms

module _ {S : Type 0} (engine : Engine S) where
  -- The engine runs the statements one after another, and each of them works.
  pub data Ran : S → List Bytes → S → Type 0 where
    ran_none : (s : S) → Ran s [] s
    ran_next :
        (s s' s'' : S) (q : Bytes) (qs : List Bytes)
        → engine.exec s q ≡ ok s'
        → Ran s' qs s''
        → Ran s (q ∷ qs) s''

  -- A migration that the engine has applied to a schema: all of its statements ran, and its version
  -- was recorded and committed.
  abbrev pub Applied : S → Migration → S → Type 0
  Applied s m s' =
      (engine.begins s ≡ true)
      × Ran s (statements m.sql) s'
      × (engine.records s' m.version ≡ true)
      × (engine.commits s' ≡ true)

  -- What stops a migration, with the schema that is left: its transaction does not open; or one of its
  -- statements fails after those before it ran; or its version is not recorded; or it is not committed.
  pub data Stopped (s : S) (m : Migration) : S → Type 0 where
    not_begun : engine.begins s ≡ false → Stopped s m s
    not_run :
        (s' s'' : S) (done : List Bytes) (q : Bytes) (left : List Bytes)
        → engine.begins s ≡ true
        → statements m.sql ≡ done ++ (q ∷ left)
        → Ran s done s'
        → engine.exec s' q ≡ err s''
        → Stopped s m (engine.rolled_back s s'')
    not_recorded :
        (s' : S)
        → engine.begins s ≡ true
        → Ran s (statements m.sql) s'
        → engine.records s' m.version ≡ false
        → Stopped s m (engine.rolled_back s s')
    not_committed :
        (s' : S)
        → engine.begins s ≡ true
        → Ran s (statements m.sql) s'
        → engine.records s' m.version ≡ true
        → engine.commits s' ≡ false
        → Stopped s m (engine.rolled_back s s')

  -- A run over the migrations still to do: each is applied and recorded, up to the end or up to the
  -- first that is stopped, which is not recorded.
  pub data Progress : List Migration → Database S → Database S × Option MigrateFault → Type 0 where
    finished : (db : Database S) → Progress [] db (db, none)
    done :
        (m : Migration) (todo : List Migration) (db : Database S) (s : S)
        (r : Database S × Option MigrateFault)
        → Applied db.schema m s
        → Progress todo (record { schema = s; versions = db.versions ++ m.version ∷ [] }) r
        → Progress (m ∷ todo) db r
    stopped :
        (m : Migration) (todo : List Migration) (db : Database S) (s : S)
        → Stopped db.schema m s
        → Progress (m ∷ todo) db (record db { schema = s }, some (failed m.version))

  -- What the statements of a migration come to, from their result.
  abbrev RanTo : S → List Bytes → Result S S → Type 0
  RanTo s qs (ok s') = Ran s qs s'
  RanTo s qs (err s'') =
      (s' : S) × (done : List Bytes) × (q : Bytes) × (left : List Bytes) × (qs ≡ done ++ (q ∷ left))
      × Ran s done s'
      × (engine.exec s' q ≡ err s'')

  RanTo-next :
      (s s' : S) (q : Bytes) (qs : List Bytes) (r : Result S S)
      → engine.exec s q ≡ ok s'
      → RanTo s' qs r
      → RanTo s (q ∷ qs) r
  RanTo-next s s' q qs (ok s'') e h = ran_next s s' s'' q qs e h
  RanTo-next s s' q qs (err s'') e (x, ds, p, left, f, h, g) =
      (x, q ∷ ds, p, left, ap (λ t. q ∷ t) f, ran_next s s' x q ds e h, g)

  -- The result of the first statement decides what all of them come to.
  RanTo-exec :
      (s : S) (q : Bytes) (qs : List Bytes) (r : Result S S)
      → engine.exec s q ≡ r
      → ((s' : S) → RanTo s' qs (exec_all engine s' qs))
      → RanTo s (q ∷ qs) (elim r [ ok s' ↦ exec_all engine s' qs | err s' ↦ err s' ])
  RanTo-exec s q qs (ok s') e ih = RanTo-next s s' q qs (exec_all engine s' qs) e (ih s')
  RanTo-exec s q qs (err s') e ih = (s, [], q, qs, refl, ran_none s, e)

  exec_all-RanTo : (s : S) (qs : List Bytes) → RanTo s qs (exec_all engine s qs)
  unfolding exec_all
  exec_all-RanTo s [] = ran_none s
  exec_all-RanTo s (q ∷ qs) = RanTo-exec s q qs (engine.exec s q) refl (λ s'. exec_all-RanTo s' qs)

  -- What an application comes to, from its result.
  abbrev AppliedTo : S → Migration → Result S S → Type 0
  AppliedTo s m (ok s') = Applied s m s'
  AppliedTo s m (err s') = Stopped s m s'

  recorded-AppliedTo :
      (s : S) (m : Migration) (r : Result S S)
      → engine.begins s ≡ true
      → RanTo s (statements m.sql) r
      → AppliedTo s m (recorded engine s m r)
  unfolding recorded
  recorded-AppliedTo s m (err s'') b (s', ds, q, left, f, h, g) = not_run s' s'' ds q left b f h g
  recorded-AppliedTo s m (ok s') b h = elim (Bool-cases (engine.records s' m.version)) [
    | inl e ↦ elim (Bool-cases (engine.commits s')) [
      | inl f ↦ rw (e, f) (b, h, e, f)
      | inr f ↦ rw (e, f) (not_committed s' b h e f)
    ]
    | inr e ↦ rw e (not_recorded s' b h e)
  ]

  apply-AppliedTo : (s : S) (m : Migration) → AppliedTo s m (apply engine s m)
  unfolding apply
  apply-AppliedTo s m = elim (Bool-cases (engine.begins s)) [
    | inl e ↦ rw e (
        recorded-AppliedTo s m (exec_all engine s (statements m.sql)) e
          (exec_all-RanTo s (statements m.sql)))
    | inr e ↦ rw e (not_begun e)
  ]

  apply_pending-Progress :
      (current : ℤ) (ms : List Migration) (db : Database S)
      → Progress (pending current ms) db (apply_pending engine current ms db)
  unfolding apply_pending pending
  apply_pending-Progress current [] db = finished db
  apply_pending-Progress current (m ∷ ms) db = elim (Bool-cases (leb_ℤ m.version current)) [
    | inl e ↦ rw e (apply_pending-Progress current ms db)
    | inr e ↦ elim (Result-cases (apply engine db.schema m)) [
      | inr (s, f) ↦
          let next : Database S = record { schema = s; versions = db.versions ++ m.version ∷ [] } in
          rw (e, f)
            (done m (pending current ms) db s (apply_pending engine current ms next)
              (subst (AppliedTo db.schema m) f (apply-AppliedTo db.schema m))
              (apply_pending-Progress current ms next))
      | inl (s, f) ↦
          rw (e, f)
            (stopped m (pending current ms) db s
              (subst (AppliedTo db.schema m) f (apply-AppliedTo db.schema m)))
    ]
  ]

pub migrate_ready :
    {S : Type 0} (engine : Engine S) (ms : List Migration) (db : Database S)
    → unready engine ≡ none
    → migrate engine ms db ≡ (
        if ltb_ℤ (latest ms) (current_version db.versions)
        then (db, some (too_new (current_version db.versions) (latest ms)))
        else apply_pending engine (current_version db.versions) ms db)
unfolding migrate
migrate_ready engine ms db h = rw (h, migrate)

-- A run ends before it has read the version, or refuses a schema newer than the last migration, and
-- changes nothing; or it goes through the pending migrations in order. Of each up to the first that is
-- stopped every statement ran, its version was recorded and the transaction committed. One is stopped
-- where its transaction does not open, where a statement fails after those before it ran, or where its
-- version is not recorded or not committed: it is then not among the recorded versions, the schema is
-- what the engine's rollback leaves, and nothing after it is tried. There is no error where none is.
pub migrate-Progress :
    {S : Type 0} (engine : Engine S) (ms : List Migration) (db : Database S)
    → ((e : MigrateFault) × (unready engine ≡ some e) × (migrate engine ms db ≡ (db, some e)))
      ⊎ (((latest ms <ℤ current_version db.versions)
            × (migrate engine ms db
                ≡ (db, some (too_new (current_version db.versions) (latest ms)))))
          ⊎ ((current_version db.versions ≤ℤ latest ms)
              × Progress engine
                  (pending (current_version db.versions) ms)
                  db
                  (migrate engine ms db)))
unfolding migrate
migrate-Progress engine ms db = elim (Option-cases (unready engine)) [
  | inr (e, f) ↦ inl (e, f, rw (f, migrate))
  | inl f ↦ inr (elim (Bool-cases (ltb_ℤ (latest ms) (current_version db.versions))) [
    | inl e ↦ inl (ltb→lt _ _ e, rw (migrate_ready engine ms db f, e))
    | inr e ↦ inr (
      not-ltb→le _ _ e,
      rw (migrate_ready engine ms db f, e)
          (apply_pending-Progress engine (current_version db.versions) ms db),
    )
  ])
]
