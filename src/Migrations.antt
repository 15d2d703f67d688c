-- ===== src/Migrations.antt =====
-- The migrations of the database at start-up: Migrate of backend/internal/db/db.go. `exec` runs a
-- script on what the database holds, or fails; a database that has no table schema_migrations yet
-- is one where the table is empty.
pub mod Built
pub mod Upgrade
mod Examples
use helboot.Prelude.{
  String, Bool, true, false, ◌||◌, List, [], ◌∷◌, Option, none, some, ltb, map, keep, first, ◌==◌,
  String_eq, if◌then◌else◌,
}
use helboot.Store.Db.{count_if}
use helboot.Sorting.{sort_by}

-- The embedded directory: the scripts by their names.
abbrev pub Files : Type 0
Files = List (String × String)

-- strings.HasSuffix(name, ".sql")
is_sql : String → Bool
is_sql String.[] = false
is_sql (String.◌∷◌ c s) = String.◌∷◌ c s == ".sql" || is_sql s

unfoldable pub migration_names : Files → List String
unfolding is_sql
migration_names files = sort_by (λ name. name) (keep is_sql (map (λ f. f.0) files))

-- fs.ReadFile
unfoldable pub read_file : Files → String → Option String
read_file [] name = none
read_file ((n, content) ∷ files) name = if n == name then some content else read_file files name

-- `versions` is the table schema_migrations, the newest row first.
pub record Database (S : Type 0) : Type 0 where
  pub schema : S
  pub versions : List String

module _ {S : Type 0} where
  unfoldable pub is_applied : Database S → String → Bool
  is_applied db name = ltb 0 (count_if (λ v. v == name) db.versions)

  -- INSERT INTO schema_migrations, whose key is the version.
  unfoldable pub insert_version : Database S → String → Option (Database S)
  unfolding is_applied
  insert_version db name =
      if is_applied db name then none else some (record db { versions = name ∷ db.versions })

  module _ (exec : S → String → Option S) where
    in_transaction : Database S → String → Option S → Option (Database S)
    unfolding insert_version
    in_transaction db name none = none
    in_transaction db name (some s) = insert_version (record db { schema = s }) name

    apply_script : Database S → String → Option String → Option (Database S)
    unfolding in_transaction
    apply_script db name none = none
    apply_script db name (some script) = in_transaction db name (exec db.schema script)

    -- `none` is an error: the transaction is rolled back.
    unfoldable pub apply : Files → Database S → String → Option (Database S)
    unfolding apply_script
    apply files db name = apply_script db name (read_file files name)

    -- The loop of Migrate: the name of the migration that failed, if any, and the database.
    unfoldable pub migrate_step :
        Database S
        → (Database S → Option String × Database S)
        → String
        → Option (Database S)
        → Option String × Database S
    migrate_step db next name none = (some name, db)
    migrate_step db next name (some db') = next db'

    unfoldable pub migrate_all : Files → List String → Database S → Option String × Database S
    unfolding is_applied apply migrate_step
    migrate_all files [] db = (none, db)
    migrate_all files (name ∷ names) db = elim (is_applied db name) [
      | true ↦ migrate_all files names db
      | false ↦ migrate_step db (migrate_all files names) name (apply files db name)
    ]

    unfoldable pub migrate : Files → Database S → Option String × Database S
    unfolding migrate_all migration_names
    migrate files db = migrate_all files (migration_names files) db
