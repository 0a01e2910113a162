-- ===== src/Db/Tests.antt =====
-- Paths and migrations at concrete values.
use stratus_backend.Prelude.{
  ◌≡◌, ◌≢◌, ◌↔◌, ◌⊎◌, refl, none, some, arith, List, [], ◌∷◌, ◌++◌, Option, true, false, length,
  if◌then◌else◌,
}
use stratus_backend.Prelude.Int.{pos, ◌<ℤ◌, ◌≤ℤ◌}
use stratus_backend.Prelude.Text.{Bytes, codes, beq, has_prefix, split, cut, cut_suffix, Lacks}
use stratus_backend.Db.Path.{validate_path, validate_move, parent_of, subtree_range, copy_name, ext}
use stratus_backend.Db.Path.Laws.{IsPath, validate_path-none}
use stratus_backend.Db.Path.Subtree.{in_range, in_range-subtree_range, validate_move-none}
use stratus_backend.Db.Path.Copies.{parent_of_parts, ext-copy_name, copy_name_injective}
use stratus_backend.Db.Migrate.{
  Migration, Engine, Database, MigrateFault, failed, recorded, too_new, current_version, latest,
  migrate, apply_pending, apply, exec_all, unready,
}
use stratus_backend.Db.Migrate.Statements.{
  statements, strip_comment, unclosed_trigger, is_space, trim_space,
}
use stratus_backend.Db.Migrate.Progress.{Progress, pending, migrate-Progress}
use stratus_backend.Db.Migrate.Again.{IsAscending, migrate_again}
use stratus_backend.Db.Migrate.Load.{
  load_migrations, read_all, read_entry, has_version, base_of, sort, insert,
}
use stratus_backend.Db.Migrate.Load.Order.{load_migrations-IsAscending}
use stratus_backend.Db.Path.{cut_last, trim_suffix}
use stratus_backend.Prelude.Result.{err, ok}
use stratus_backend.Prelude.Decimal.{parse_int}

validate_path-none_example : (validate_path (codes "a/b") ≡ none) ↔ IsPath (codes "a/b")
validate_path-none_example = validate_path-none (codes "a/b")

in_range-subtree_range_example :
    in_range (subtree_range (codes "a")) (codes "a.b")
    ≡ (if beq (codes "a") [] then true else has_prefix (codes "a.b") (codes "a" ++ codes "/"))
in_range-subtree_range_example = in_range-subtree_range (codes "a") (codes "a.b")

validate_move-none_example : (validate_move (codes "a") (codes "b/a") ≡ none) ↔ (
    IsPath (codes "a")
    × IsPath (codes "b/a")
    × (codes "a" ≢ codes "b/a")
    × (in_range (subtree_range (codes "a")) (codes "b/a") ≡ false))
validate_move-none_example = validate_move-none (codes "a") (codes "b/a")

parent_of_parts_example :
    ((parent_of (codes "a/b") ≡ []) × Lacks b'/' (codes "a/b"))
    ⊎ ((base : Bytes) × (codes "a/b" ≡ parent_of (codes "a/b") ++ (b'/' ∷ base)) × Lacks b'/' base)
parent_of_parts_example = parent_of_parts (codes "a/b")

ext-copy_name_example : ext (copy_name (codes "a.jpg") (pos 2)) ≡ ext (codes "a.jpg")
ext-copy_name_example = ext-copy_name (codes "a.jpg") (pos 2)

copy_name_injective_example : pos 2 ≡ pos 2
copy_name_injective_example =
    copy_name_injective (codes "a.jpg") (pos 2) (pos 2) (omega arith) (omega arith) (omega arith)
      (omega arith) refl

-- An engine whose schema is the list of the statements it has run, which refuses the text `bad` and
-- takes back no statement that it has run.
abbrev recording : Engine (List Bytes)
recording = record {
  lock = none;
  creates_table = true;
  reads_version = true;
  begins = λ s. true;
  records = λ s v. true;
  exec = λ s q. if beq q (codes "bad") then err s else ok (s ++ q ∷ []);
  commits = λ s. true;
  rolled_back = λ s s'. s';
}

abbrev two : List Migration
two =
    record { version = pos 1; name = codes "a"; sql = codes "a;" }
    ∷ record { version = pos 2; name = codes "b"; sql = codes "b; -- c" }
    ∷ []

abbrev broken : List Migration
broken =
    record { version = pos 1; name = codes "a"; sql = codes "a;" }
    ∷ record { version = pos 2; name = codes "b"; sql = codes "b; bad; c" }
    ∷ record { version = pos 3; name = codes "d"; sql = codes "d" }
    ∷ []

abbrev fresh : Database (List Bytes)
fresh = record { schema = []; versions = [] }

abbrev migrated : Database (List Bytes)
migrated = record { schema = codes "a" ∷ codes "b" ∷ []; versions = pos 1 ∷ pos 2 ∷ [] }

migrate-Progress_example :
    ((e : MigrateFault) × (unready recording ≡ some e)
      × (migrate recording broken fresh ≡ (fresh, some e)))
    ⊎ (((latest broken <ℤ current_version fresh.versions)
          × (migrate recording broken fresh
              ≡ (fresh, some (too_new (current_version fresh.versions) (latest broken)))))
        ⊎ ((current_version fresh.versions ≤ℤ latest broken)
            × Progress recording
                (pending (current_version fresh.versions) broken)
                fresh
                (migrate recording broken fresh)))
migrate-Progress_example = migrate-Progress recording broken fresh

recording_ready : unready recording ≡ none
unfolding unready
recording_ready = refl

first_run : migrate recording two fresh ≡ (migrated, none)
unfolding migrate unready apply_pending apply exec_all recorded current_version latest statements
    beq split strip_comment unclosed_trigger is_space trim_space
first_run = refl

-- The statement before the one that fails stays in the schema, and its version is not recorded.
broken_run :
    migrate recording broken fresh
    ≡ (record { schema = codes "a" ∷ codes "b" ∷ []; versions = pos 1 ∷ [] }, some (failed (pos 2)))
unfolding migrate unready apply_pending apply exec_all recorded current_version latest statements
    beq split strip_comment unclosed_trigger is_space trim_space
broken_run = refl

migrate_again_example : migrate recording two migrated ≡ (migrated, none)
migrate_again_example =
    migrate_again recording recording two fresh migrated (omega arith, (omega arith, tt)) tt
      recording_ready first_run

abbrev files : List (Bytes × Option Bytes)
files =
    (codes "migrations/0002_b.sql", some (codes "b; -- c"))
    ∷ (codes "migrations/0001_a.sql", some (codes "a;"))
    ∷ []

files_loaded : load_migrations (some files) ≡ ok two
unfolding load_migrations read_all read_entry cut base_of cut_last parse_int has_version sort insert
    trim_suffix cut_suffix
files_loaded = refl

load_migrations-IsAscending_example : IsAscending (pos 0) two × (length two ≡ length files)
load_migrations-IsAscending_example = load_migrations-IsAscending files two files_loaded
