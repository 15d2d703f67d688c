-- ===== src/Backup/Import.antt =====
-- What an import stages: Import of backend/internal/backup/backup.go.
use helboot.Prelude.{
  String, ◌≡◌, ◌≢◌, refl, Bool, true, false, Option, none, some, update, arith, ◌==◌, String_eq,
  Bool-cases, inl, inr, ◌⊎◌,
}
use helboot.Filepath.{join}
use helboot.Backup.{
  Files, Archive, end_of_file, broken, entry, Upload, not_gzip, gzip, Formats, ImportError,
  EntryKind, manifest, database, unknown, entry_kind, pending_name, validate_sqlite, stage_database,
  on_error, import_entry, check_manifest, finish_import, import_entries, import_backup,
}

pub equal : (p : String) → (p == p) ≡ true
equal p = (String_eq.equals_iff p p).1 refl

pub update_same : (files : Files) (p : String) (c : Option String) → update files p c p ≡ c
update_same files p c = rw (equal p) refl

-- An archive with entries of neither kind.
abbrev pub Foreign : Archive → Type 0
Foreign end_of_file = Unit
Foreign broken = Unit
Foreign (entry name content rest) = (entry_kind name ≡ unknown) × Foreign rest

module _ (f : Formats) (data_dir : String) where
  -- What is staged, if anything, was staged before, or is a database that SQLite and the schema
  -- accept; and no file but the staged one differs.
  pub record Safe (old new : Files) : Type 0 where
    pub usable :
        (content : String)
        → new (join data_dir pending_name) ≡ some content
        → (validate_sqlite f content ≡ true) ⊎ (old (join data_dir pending_name) ≡ some content)
    pub untouched : (p : String) → (join data_dir pending_name == p) ≡ false → new p ≡ old p

  Safe-stage :
      (old files : Files) (content : String)
      → Safe old files
      → Safe old (stage_database f files data_dir content).1
  unfolding stage_database
  Safe-stage old files content v = elim (Bool-cases (validate_sqlite f content)) [
    | inr e ↦ rw (e, stage_database) v
    | inl e ↦
        rw (e, stage_database)
          (record {
            usable = λ c h.
                ground (arith, update_same files (join data_dir pending_name) (some content));
            untouched = λ p h. rw h (v.untouched p h);
          })
  ]

  SafeLoop : Files → (Files → Bool → Bool → Option ImportError × Files) → Type 0
  SafeLoop old next = (files : Files) (m d : Bool) → Safe old files → Safe old (next files m d).1

  on_error-Safe :
      (old files : Files) (e : Option ImportError) (later : Option ImportError × Files)
      → Safe old files
      → Safe old later.1
      → Safe old (on_error e files later).1
  on_error-Safe old files none later v w = w
  on_error-Safe old files (some e) later v w = v

  import_entry-Safe :
      (old : Files) (next : Files → Bool → Bool → Option ImportError × Files)
      → SafeLoop old next
      → (k : EntryKind) (content : String) → SafeLoop old (import_entry f data_dir next k content)
  unfolding import_entry SafeLoop
  import_entry-Safe old next n manifest content files m d v =
      on_error-Safe old files (check_manifest (f.application content)) (next files true d) v
        (n files true d v)
  import_entry-Safe old next n database content files m d v =
      let staged = Safe-stage old files content v in
      let (e, files') = stage_database f files data_dir content in
      on_error-Safe old files' e (next files' m true) staged (n files' m true staged)
  import_entry-Safe old next n unknown content files m d v = n files m d v

  import_entries-Safe : (old : Files) (a : Archive) → SafeLoop old (import_entries f data_dir a)
  unfolding import_entries SafeLoop
  import_entries-Safe old end_of_file files m d v = v
  import_entries-Safe old broken files m d v = v
  import_entries-Safe old (entry name content rest) files m d v =
      import_entry-Safe old (import_entries f data_dir rest) (import_entries-Safe old rest)
        (entry_kind name) content files m d v

  pub import_backup-Safe :
      (files : Files) (upload : Upload) → Safe files (import_backup f files data_dir upload).1
  unfolding import_backup SafeLoop
  import_backup-Safe files not_gzip = record { usable = λ c e. inr e; untouched = λ p e. refl }
  import_backup-Safe files (gzip archive) =
      import_entries-Safe files archive files false false
        (record { usable = λ c e. inr e; untouched = λ p e. refl })

  -- A usable database is staged.
  unfoldable pub Staged : Files → Type 0
  Staged files =
      (content : String) × (files (join data_dir pending_name) ≡ some content)
      × (validate_sqlite f content ≡ true)

  stage_database-Staged :
      (files : Files) (content : String)
      → (stage_database f files data_dir content).0 ≡ none
      → Staged (stage_database f files data_dir content).1
  unfolding stage_database Staged
  stage_database-Staged files content h = elim (Bool-cases (validate_sqlite f content)) [
    | inl e ↦
        rw (e, stage_database)
          (content, update_same files (join data_dir pending_name) (some content), e)
    | inr e ↦ absurd (ground arith)
  ]

  unfoldable pub StagedLoop : (Files → Bool → Bool → Option ImportError × Files) → Type 0
  StagedLoop next =
      (files : Files) (m d : Bool)
      → (d ≡ true → Staged files)
      → (next files m d).0 ≡ none
      → Staged (next files m d).1

  import_entry-Staged :
      (next : Files → Bool → Bool → Option ImportError × Files)
      → StagedLoop next
      → (k : EntryKind) (content : String) → StagedLoop (import_entry f data_dir next k content)
  unfolding import_entry StagedLoop
  import_entry-Staged next n manifest content files m d v h =
      go (check_manifest (f.application content)) h
    where
      go :
          (e : Option ImportError)
          → (on_error e files (next files true d)).0 ≡ none
          → Staged (on_error e files (next files true d)).1
      go none h = n files true d v h
      go (some e) h = absurd (ground arith)
  import_entry-Staged next n database content files m d v h =
      go (stage_database f files data_dir content) (stage_database-Staged files content) h
    where
      go :
          (s : Option ImportError × Files)
          → (s.0 ≡ none → Staged s.1)
          → (on_error s.0 s.1 (next s.1 m true)).0 ≡ none
          → Staged (on_error s.0 s.1 (next s.1 m true)).1
      go (none, files') w h = n files' m true (λ e. w refl) h
      go (some e, files') w h = absurd (ground arith)
  import_entry-Staged next n unknown content files m d v h = n files m d v h

  pub import_entries-Staged : (a : Archive) → StagedLoop (import_entries f data_dir a)
  unfolding import_entries StagedLoop finish_import
  import_entries-Staged end_of_file files m d v h = v (ground arith)
  import_entries-Staged broken files m d v h = absurd (ground arith)
  import_entries-Staged (entry name content rest) files m d v h =
      import_entry-Staged (import_entries f data_dir rest) (import_entries-Staged rest)
        (entry_kind name) content files m d v h

  pub Foreign-import :
      (a : Archive) (files : Files) (d : Bool)
      → Foreign a
      → ((import_entries f data_dir a files false d).0 ≢ none)
        × ((import_entries f data_dir a files false d).1 ≡ files)
  unfolding import_entries import_entry finish_import
  Foreign-import end_of_file files d h = ground arith
  Foreign-import broken files d h = ground arith
  Foreign-import (entry name content rest) files d (k, h) = rw k (Foreign-import rest files d h)
