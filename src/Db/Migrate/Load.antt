-- ===== src/Db/Migrate/Load.antt =====
-- `loadMigrations` of internal/db/migrate.go. The file system is a parameter: the names that match
-- `migrations/*.sql`, or an error, and for each name the file's bytes where it can be read. The sort is
-- by insertion: no two versions are equal, so every sort gives the same list.
pub mod Order
use stratus_backend.Prelude.{
  ℕ, ◌≡◌, refl, Bool, true, false, ◌||◌, ◌&&◌, List, [], ◌∷◌, Option, none, some, if◌then◌else◌,
}
use stratus_backend.Prelude.Int.{ℤ, pos, leb_ℤ, ltb_ℤ}
use stratus_backend.Prelude.Text.{Bytes, codes, cut}
use stratus_backend.Prelude.Decimal.{parse_int}
use stratus_backend.Prelude.Result.{Result, ok, err}
use stratus_backend.Db.Path.{cut_last, trim_suffix}
use stratus_backend.Db.Migrate.{Migration}

pub data LoadFault : Type 0 where
  not_listed none_found : LoadFault
  not_named no_version_number shared_version not_read : Bytes → LoadFault

-- path.Base, for a name with no slash at its end.
unfoldable pub base_of : Bytes → Bytes
base_of name = elim (cut_last name b'/') [ none ↦ name | some (a, b) ↦ b ]

unfoldable pub has_version : ℤ → List ℤ → Bool
has_version v [] = false
has_version v (w ∷ ws) = (leb_ℤ v w && leb_ℤ w v) || has_version v ws

-- One round of the loop, with the versions seen so far.
unfoldable pub read_entry : List ℤ → Bytes → Option Bytes → Result LoadFault Migration
read_entry seen name body =
    let base = base_of name in
    elim (cut base b'_') [
      | none ↦ err (not_named base)
      | some (number, rest) ↦ elim (parse_int number) [
        | none ↦ err (no_version_number base)
        | some version ↦
            if leb_ℤ version (pos 0)
            then err (no_version_number base)
            else if has_version version seen
            then err (shared_version base)
            else elim body [
              | none ↦ err (not_read name)
              | some sql ↦
                  ok (record {
                    version = version;
                    name = trim_suffix rest (codes ".sql");
                    sql = sql;
                  })
            ]
      ]
    ]

unfoldable pub read_all : List ℤ → List (Bytes × Option Bytes) → Result LoadFault (List Migration)
read_all seen [] = ok []
read_all seen ((name, body) ∷ es) = elim (read_entry seen name body) [
  | err f ↦ err f
  | ok m ↦ elim (read_all (m.version ∷ seen) es) [ err f ↦ err f | ok ms ↦ ok (m ∷ ms) ]
]

unfoldable pub insert : Migration → List Migration → List Migration
insert m [] = m ∷ []
insert m (n ∷ ns) =
    let rest = insert m ns in if ltb_ℤ m.version n.version then m ∷ n ∷ ns else n ∷ rest

unfoldable pub sort : List Migration → List Migration
sort [] = []
sort (m ∷ ms) = insert m (sort ms)

-- loadMigrations
unfoldable pub load_migrations :
    Option (List (Bytes × Option Bytes)) → Result LoadFault (List Migration)
load_migrations none = err not_listed
load_migrations (some []) = err none_found
load_migrations (some (e ∷ es)) = elim (read_all [] (e ∷ es)) [
  | err f ↦ err f
  | ok ms ↦ ok (sort ms)
]
