-- ===== src/Migrations/Built.antt =====
-- What the table schema_migrations says of the database: Migrate of backend/internal/db/db.go.
use helboot.Prelude.{
  String, ◌≡◌, refl, true, false, List, [], ◌∷◌, Option, none, some, arith, String_eq, Bool-cases,
  Option-cases, inl, inr, All, subst,
}
use helboot.Migrations.{
  Files, read_file, migration_names, Database, is_applied, insert_version, in_transaction,
  apply_script, apply, migrate_step, migrate_all, migrate,
}

module _ {S : Type 0} (exec : S → String → Option S) (files : Files) where
  -- Running the scripts of the versions, the oldest first and each once, makes the schema from the
  -- empty one.
  pub data Built (empty : S) : Database S → Type 0 where
    start : Built empty (record { schema = empty; versions = [] })
    ran :
        {db : Database S} {s : S} (name script : String)
        → Built empty db
        → is_applied db name ≡ false
        → read_file files name ≡ some script
        → exec db.schema script ≡ some s
        → Built empty (record { schema = s; versions = name ∷ db.versions })

  pub record Ran (db : Database S) (name : String) (db' : Database S) : Type 0 where
    pub script : String
    pub schema : S
    pub read : read_file files name ≡ some script
    pub executed : exec db.schema script ≡ some schema
    pub result : record { schema = schema; versions = name ∷ db.versions } ≡ db'

  pub apply-Ran :
      (db : Database S) (name : String) (db' : Database S)
      → is_applied db name ≡ false
      → apply exec files db name ≡ some db'
      → Ran db name db'
  unfolding apply apply_script in_transaction insert_version is_applied
  apply-Ran db name db' n h = elim (Option-cases (read_file files name)) [
    | inl e ↦ absurd (ground arith)
    | inr (script, e) ↦ elim (Option-cases (exec db.schema script)) [
      | inl k ↦ absurd (ground arith)
      | inr (s, k) ↦ record {
        script = script;
        schema = s;
        read = e;
        executed = k;
        result = ground arith;
      }
    ]
  ]

  pub applied_after :
      (db db' : Database S) (name : String) → Ran db name db' → is_applied db' name ≡ true
  unfolding is_applied
  applied_after db db' name r =
      let same = (String_eq.equals_iff name name).1 refl in
      subst (λ d. is_applied d name ≡ true) r.result (ground arith)

  applied_still :
      (db db' : Database S) (name other : String)
      → Ran db name db'
      → is_applied db other ≡ true
      → is_applied db' other ≡ true
  unfolding is_applied
  applied_still db db' name other r h =
      subst (λ d. is_applied d other ≡ true) r.result (ground arith)

  -- A step of the loop: the migration was run before, or runs now, or fails.
  pub data Step (db : Database S) (name : String) (rest : List String) : Type 0 where
    skipped :
        is_applied db name ≡ true
        → migrate_all exec files (name ∷ rest) db ≡ migrate_all exec files rest db
        → Step db name rest
    ran_now :
        (db' : Database S)
        → is_applied db name ≡ false
        → apply exec files db name ≡ some db'
        → Ran db name db'
        → migrate_all exec files (name ∷ rest) db ≡ migrate_all exec files rest db'
        → Step db name rest
    broke :
        is_applied db name ≡ false
        → apply exec files db name ≡ none
        → migrate_all exec files (name ∷ rest) db ≡ (some name, db)
        → Step db name rest

  pub step_of : (db : Database S) (name : String) (rest : List String) → Step db name rest
  unfolding migrate_all migrate_step
  step_of db name rest = elim (Bool-cases (is_applied db name)) [
    | inl e ↦ skipped e (rw (migrate_all, e) refl)
    | inr e ↦ elim (Option-cases (apply exec files db name)) [
      | inl k ↦ broke e k (rw (migrate_all, e, k) refl)
      | inr (db', k) ↦ ran_now db' e k (apply-Ran db name db' e k) (rw (migrate_all, e, k) refl)
    ]
  ]

  pub migrate_all-applied :
      (names : List String) (db : Database S) (other : String)
      → is_applied db other ≡ true
      → is_applied (migrate_all exec files names db).1 other ≡ true
  unfolding migrate_all
  migrate_all-applied [] db other h = h
  migrate_all-applied (name ∷ names) db other h = elim (step_of db name names) [
    | skipped e k ↦ rw k (migrate_all-applied names db other h)
    | ran_now db' e a r k ↦
        rw k (migrate_all-applied names db' other (applied_still db db' name other r h))
    | broke e a k ↦ rw k h
  ]

  -- How the loop ends: all versions are there, or the scripts ran up to one that fails.
  pub data Ended (names : List String) : Option String × Database S → Type 0 where
    complete : {db : Database S} → All (λ n. is_applied db n ≡ true) names → Ended names (none, db)
    stopped :
        {db : Database S} (name : String)
        → is_applied db name ≡ false
        → apply exec files db name ≡ none
        → Ended names (some name, db)

  Ended-cons :
      (name : String) (names : List String) (out : Option String × Database S)
      → is_applied out.1 name ≡ true
      → Ended names out
      → Ended (name ∷ names) out
  Ended-cons name names (none, db) h (complete hs) = complete (h, hs)
  Ended-cons name names (some bad, db) h (stopped _ n e) = stopped bad n e

  module _ (empty : S) where
    Built-Ran :
        (db db' : Database S) (name : String)
        → Built empty db
        → is_applied db name ≡ false
        → Ran db name db'
        → Built empty db'
    Built-Ran db db' name b n r =
        subst (Built empty) r.result (ran name r.script b n r.read r.executed)

    migrate_all-Built :
        (names : List String) (db : Database S)
        → Built empty db
        → Built empty (migrate_all exec files names db).1
          × Ended names (migrate_all exec files names db)
    unfolding migrate_all
    migrate_all-Built [] db b = (b, complete tt)
    migrate_all-Built (name ∷ names) db b = elim (step_of db name names) [
      | skipped e k ↦
          let (b', ended) = migrate_all-Built names db b in
          rw k (b', Ended-cons name names _ (migrate_all-applied names db name e) ended)
      | ran_now db' e a r k ↦
          let (b', ended) = migrate_all-Built names db' (Built-Ran db db' name b e r) in
          let there = migrate_all-applied names db' name (applied_after db db' name r) in
          rw k (b', Ended-cons name names _ there ended)
      | broke e a k ↦ rw k (b, stopped name e a)
    ]

    -- Where running the scripts of the table's versions, the oldest first and each once, makes
    -- what the database holds, that is so after a migration too, also after one that fails. It
    -- ends with all migrations in the table, or with the name of one that is not in the table and
    -- that fails on the database as it then is.
    pub migrate-Built :
        (db : Database S)
        → Built empty db
        → Built empty (migrate exec files db).1
          × Ended (migration_names files) (migrate exec files db)
    unfolding migrate
    migrate-Built db b = migrate_all-Built (migration_names files) db b
