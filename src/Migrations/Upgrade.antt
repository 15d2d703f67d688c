-- ===== src/Migrations/Upgrade.antt =====
-- Start-ups with successive releases on one database: Migrate of backend/internal/db/db.go.
use helboot.Prelude.{
  String, ◌≡◌, refl, sym, ap, ◌∙◌, true, false, List, [], ◌∷◌, ◌++◌, Option, some, All,
}
use helboot.Migrations.{
  Files, read_file, migration_names, Database, is_applied, apply_script, apply, migrate_all,
  migrate,
}
use helboot.Migrations.Built.{step_of, skipped, ran_now, broke, migrate_all-applied, applied_after}

module _ {S : Type 0} (exec : S → String → Option S) (old new : Files) where
  unfoldable pub SameScript : String → Type 0
  SameScript n = read_file new n ≡ read_file old n

  same_apply :
      (db : Database S) (name : String)
      → SameScript name
      → apply exec new db name ≡ apply exec old db name
  unfolding apply SameScript
  same_apply db name e = ap (apply_script exec db name) e

  -- The next release skips what is there.
  skip :
      (name : String) (names : List String) (db : Database S)
      → is_applied db name ≡ true
      → migrate_all exec new (name ∷ names) db ≡ migrate_all exec new names db
  unfolding migrate_all
  skip name names db h = rw (migrate_all, h) refl

  resume :
      (names later : List String) (db : Database S)
      → All SameScript names
      → migrate_all exec new (names ++ later) (migrate_all exec old names db).1
        ≡ migrate_all exec new (names ++ later) db
  unfolding migrate_all
  resume [] later db h = refl
  resume (name ∷ names) later db (e, h) = elim (step_of exec old db name names) [
    | skipped a k ↦
        let there = migrate_all-applied exec old names db name a in
        rw (k, skip name (names ++ later) db a, skip name (names ++ later) _ there)
          (resume names later db h)
    | ran_now db' a b r k ↦
        let there =
          migrate_all-applied exec old names db' name (applied_after exec old db db' name r) in
        rw k (
          skip name (names ++ later) _ there
          ∙ resume names later db' h
          ∙ sym (ran_next name (names ++ later) db db' a (same_apply db name e ∙ b)))
    | broke a b k ↦ rw k refl
  ]
    where
      ran_next :
          (name : String) (names : List String) (db db' : Database S)
          → is_applied db name ≡ false
          → apply exec new db name ≡ some db'
          → migrate_all exec new (name ∷ names) db ≡ migrate_all exec new names db'
      ran_next name names db db' a b = rw (migrate_all, a, b) refl

  -- Where the migrations of a release come first among those of the next, with the same scripts, a
  -- start of the old release before the new one, whether its migration fails or not, changes
  -- nothing: the new release ends with the same error, if any, and the same database.
  pub upgrade_as_fresh :
      (db : Database S) (later : List String)
      → migration_names new ≡ migration_names old ++ later
      → All SameScript (migration_names old)
      → migrate exec new (migrate exec old db).1 ≡ migrate exec new db
  unfolding migrate SameScript
  upgrade_as_fresh db later e h = rw e (resume (migration_names old) later db h)
