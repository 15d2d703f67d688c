-- ===== src/Migrations/Examples.antt =====
-- Two releases, of which the second adds a script that fails: backend/internal/db/db.go.
use helboot.Prelude.{String, ◌≡◌, refl, Bool, true, [], ◌∷◌, Option, none, some, ◌==◌, String_eq}
use Prim.Native.String.{◌++◌}
use helboot.Migrations.{Files, migration_names, read_file, Database, migrate, migrate_all}
use helboot.Migrations.Built.{Built, start, ran, Ended, migrate-Built}
use helboot.Migrations.Upgrade.{SameScript, upgrade_as_fresh}

-- What the database holds is the text of the scripts.
abbrev exec_text : String → String → Option String
exec_text schema script = if_known (script == "SYNTAX")
  where
    if_known : Bool → Option String
    if_known true = none
    if_known _ = some (schema ++ script)

abbrev first_release : Files
first_release = ("0002_leases.sql", "B") ∷ ("README", "x") ∷ ("0001_initial.sql", "A") ∷ []

abbrev second_release : Files
second_release = ("0003_token.sql", "SYNTAX") ∷ first_release

abbrev new_database : Database String
new_database = record { schema = ""; versions = [] }

abbrev first_start : Database String
first_start = record { schema = "A"; versions = "0001_initial.sql" ∷ [] }

migrated : migrate exec_text second_release new_database ≡ (
  some "0003_token.sql",
  record { schema = "AB"; versions = "0002_leases.sql" ∷ "0001_initial.sql" ∷ [] },
)
unfolding helboot.Migrations.migrate helboot.Sorting.sort_by read_file
migrated = refl

migrate-Built_example :
    Built exec_text second_release "" (migrate exec_text second_release first_start).1
    × Ended exec_text second_release
        (migration_names second_release)
        (migrate exec_text second_release first_start)
unfolding helboot.Migrations.is_applied helboot.Migrations.read_file
migrate-Built_example =
    migrate-Built exec_text second_release "" first_start
      (ran "0001_initial.sql" "A" start refl refl refl)

upgrade_as_fresh_example :
    migrate exec_text second_release (migrate exec_text first_release new_database).1
    ≡ migrate exec_text second_release new_database
unfolding helboot.Migrations.migration_names helboot.Migrations.read_file SameScript
    helboot.Sorting.sort_by
upgrade_as_fresh_example =
    upgrade_as_fresh exec_text first_release second_release new_database ("0003_token.sql" ∷ [])
      refl (refl, (refl, tt))
