-- ===== src/Db/Migrate.antt =====
-- Schema migrations: internal/db/migrate.go. The database engine is a parameter: what it answers to
-- each call, and what a transaction leaves of the schema where it is rolled back, which is not always
-- what there was before: MySQL commits each statement that changes a schema. The release of the lock
-- when the run ends is not modelled.
pub mod Statements
pub mod Load
pub mod Progress
pub mod Again
use stratus_backend.Prelude.{
  ℕ, ◌≡◌, refl, Bool, true, false, List, [], ◌∷◌, ◌++◌, Option, none, some, if◌then◌else◌, not,
  ◌&&◌,
}
use stratus_backend.Prelude.Int.{ℤ, pos, leb_ℤ, ltb_ℤ, max_ℤ}
use stratus_backend.Prelude.Text.{Bytes}
use stratus_backend.Prelude.Result.{Result, ok, err}
use stratus_backend.Db.Migrate.Statements.{statements}

pub record Migration : Type 0 where
  pub version : ℤ
  pub name : Bytes
  pub sql : Bytes

-- The engine. Before a run: the lock of the driver, `none` for a driver that has none, whether it could
-- be taken, and whether schema_migrations could be created and read. In a transaction: whether it
-- opens on a schema, the schema after one statement and whether it worked, whether the row with a
-- version is inserted, whether the transaction commits, and the schema that a rollback leaves, from the
-- one at the start of the transaction and the one that it had reached.
pub record Engine (S : Type 0) : Type 0 where
  pub lock : Option Bool
  pub creates_table : Bool
  pub reads_version : Bool
  pub begins : S → Bool
  pub exec : S → Bytes → Result S S
  pub records : S → ℤ → Bool
  pub commits : S → Bool
  pub rolled_back : S → S → S

-- The schema, and the versions in schema_migrations.
pub record Database (S : Type 0) : Type 0 where
  pub schema : S
  pub versions : List ℤ

pub data MigrateFault : Type 0 where
  -- the lock, the version table, or its reading failed
  not_locked no_table no_version : MigrateFault
  -- one migration failed, was not recorded or not committed
  failed : ℤ → MigrateFault
  -- the schema was written by a newer build
  too_new : ℤ → ℤ → MigrateFault

-- SELECT COALESCE(MAX(version), 0)
unfoldable pub current_version : List ℤ → ℤ
current_version [] = pos 0
current_version (v ∷ []) = v
current_version (v ∷ w ∷ vs) = max_ℤ v (current_version (w ∷ vs))

-- latest: the version of the last migration.
unfoldable pub latest : List Migration → ℤ
latest [] = pos 0
latest (m ∷ []) = m.version
latest (m ∷ n ∷ ms) = latest (n ∷ ms)

module _ {S : Type 0} (engine : Engine S) where
  -- The statements up to the first that fails, and whether all of them worked.
  unfoldable pub exec_all : S → List Bytes → Result S S
  exec_all s [] = ok s
  exec_all s (q ∷ qs) = elim (engine.exec s q) [ ok s' ↦ exec_all s' qs | err s' ↦ err s' ]

  -- The schema once the statements were run, and whether the migration was applied.
  unfoldable pub recorded : S → Migration → Result S S → Result S S
  recorded before m (err s) = err (engine.rolled_back before s)
  recorded before m (ok s) =
      if engine.records s m.version && engine.commits s
      then ok s
      else err (engine.rolled_back before s)

  -- apply: the statements and the record of the version in one transaction, which is rolled back
  -- where anything fails.
  unfoldable pub apply : S → Migration → Result S S
  unfolding exec_all recorded
  apply s m = if engine.begins s then recorded s m (exec_all s (statements m.sql)) else err s

  -- The loop of Migrate, from the version that was read before it.
  unfoldable pub apply_pending : ℤ → List Migration → Database S → Database S × Option MigrateFault
  apply_pending current [] db = (db, none)
  apply_pending current (m ∷ ms) db =
      let skip = apply_pending current ms db in
      let next : Database S × Option MigrateFault = elim (apply db.schema m) [
        | err s ↦ (record db { schema = s }, some (failed m.version))
        | ok s ↦
            apply_pending current ms
              (record { schema = s; versions = db.versions ++ m.version ∷ [] })
      ] in
      if leb_ℤ m.version current then skip else next

  -- What ends a run before the version is known.
  unfoldable pub unready : Option MigrateFault
  unready = elim engine.lock [
    | some false ↦ some not_locked
    | _ ↦
        if not engine.creates_table
        then some no_table
        else if not engine.reads_version
        then some no_version
        else none
  ]

  -- Migrate, over the migrations that loadMigrations found.
  unfoldable pub migrate : List Migration → Database S → Database S × Option MigrateFault
  unfolding apply_pending
  migrate ms db = elim unready [
    | some e ↦ (db, some e)
    | none ↦
        let current = current_version db.versions in
        if ltb_ℤ (latest ms) current
        then (db, some (too_new current (latest ms)))
        else apply_pending current ms db
  ]
