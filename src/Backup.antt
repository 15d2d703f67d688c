-- ===== src/Backup.antt =====
-- Backups: backend/internal/backup/backup.go, and the handler of imports in
-- backend/internal/api/handlers_system.go. Of an archive, compress/gzip and archive/tar give the
-- entries; encoding/json and SQLite are arguments. Failures of the disk are not modelled.
pub mod Import
pub mod Restore
mod Examples
use Prim.Native.String.{◌++◌}
use helboot.Prelude.{
  ℕ, String, Bool, true, false, not, ◌&&◌, ◌||◌, Option, none, some, Map, update, ◌==◌, ℕ_eq,
  String_eq, if◌then◌else◌,
}
use helboot.Model.{User}
use helboot.Store.Db.{Db}
use helboot.Filepath.{clean, join}
use helboot.Api.Respond.{Response, done, failed, Handled, audit}

-- The files of the disk by their paths, with their contents.
abbrev pub Files : Type 0
Files = Map String String

-- os.Rename
unfoldable pub rename : Files → String → String → Files
rename files from to = if from == to then files else update (update files to (files from)) from none

-- The entries that tar.Reader.Next gives, to the end of the archive or to an error.
pub data Archive : Type 0 where
  end_of_file broken : Archive
  entry : String → String → Archive → Archive

pub data Upload : Type 0 where
  not_gzip : Upload
  gzip : Archive → Upload

-- `application` decodes a manifest, of which the first 2^20 bytes are read. `integrity_check` is the
-- first row of the PRAGMA, and `migration_tables` the count of tables named schema_migrations.
pub record Formats : Type 0 where
  pub application : String → Option String
  pub integrity_check : String → Option String
  pub migration_tables : String → Option ℕ

pub data ImportError : Type 0 where
  not_an_archive invalid_manifest not_helboot unusable_database incomplete : ImportError

-- The cases of the switch on the name of an entry.
pub data EntryKind : Type 0 where
  manifest database unknown : EntryKind

unfoldable pub entry_kind : String → EntryKind
entry_kind name =
    if clean name == "manifest.json"
    then manifest
    else if clean name == "helboot.db"
    then database
    else unknown

-- `if err != nil { return … }`, or what the rest of the function gives.
abbrev pub on_error :
    Option ImportError → Files → Option ImportError × Files → Option ImportError × Files
on_error none files later = later
on_error (some e) files later = (some e, files)

abbrev pub pending_name : String
pending_name = "restore-pending.db"

unfoldable pub check_manifest : Option String → Option ImportError
check_manifest none = some invalid_manifest
check_manifest (some application) = if application == "helboot" then none else some not_helboot

unfoldable pub finish_import : Bool → Bool → Option ImportError
finish_import saw_manifest saw_db = if not saw_manifest || not saw_db then some incomplete else none

unfoldable pub respond_import : Db → Option User → Option ImportError → Handled (Unit {0})
unfolding audit
respond_import db caller (some e) = (failed 400 "backup.invalid_archive", db)
respond_import db caller none = (done 200 tt, audit db caller "backup.import" "backup" 0)

module _ (f : Formats) where
  unfoldable pub validate_sqlite : String → Bool
  validate_sqlite content = elim (f.integrity_check content) [
    | none ↦ false
    | some result ↦
        result == "ok" && (elim (f.migration_tables content) [ none ↦ false | some n ↦ n == 1 ])
  ]

  -- The temporary file is renamed to the pending one, or removed.
  unfoldable pub stage_database : Files → String → String → Option ImportError × Files
  stage_database files data_dir content =
      if validate_sqlite content
      then (none, update files (join data_dir pending_name) (some content))
      else (some unusable_database, files)

  -- One entry; `next` is the rest of the loop.
  unfoldable pub import_entry :
      String
      → (Files → Bool → Bool → Option ImportError × Files)
      → EntryKind
      → String
      → Files
      → Bool
      → Bool
      → Option ImportError × Files
  unfolding stage_database check_manifest
  import_entry data_dir next manifest content files saw_manifest saw_db =
      on_error (check_manifest (f.application content)) files (next files true saw_db)
  import_entry data_dir next database content files saw_manifest saw_db =
      let (e, files') = stage_database files data_dir content in
      on_error e files' (next files' saw_manifest true)
  import_entry data_dir next unknown content files saw_manifest saw_db =
      next files saw_manifest saw_db

  -- The loop over the entries, with the flags sawManifest and sawDB.
  unfoldable pub import_entries :
      String → Archive → Files → Bool → Bool → Option ImportError × Files
  unfolding import_entry finish_import entry_kind
  import_entries data_dir end_of_file files saw_manifest saw_db =
      (finish_import saw_manifest saw_db, files)
  import_entries data_dir broken files saw_manifest saw_db = (some not_an_archive, files)
  import_entries data_dir (entry name content rest) files saw_manifest saw_db =
      import_entry data_dir (import_entries data_dir rest) (entry_kind name) content files
        saw_manifest saw_db

  -- Manager.Import
  unfoldable pub import_backup : Files → String → Upload → Option ImportError × Files
  unfolding import_entries
  import_backup files data_dir not_gzip = (some not_an_archive, files)
  import_backup files data_dir (gzip archive) = import_entries data_dir archive files false false

  -- handleBackupImport: `part` is the part "file" of a multipart body.
  unfoldable pub handle_backup_import :
      Bool → Db → Files → String → Option User → Option Upload → Handled (Unit {0}) × Files
  unfolding import_backup respond_import
  handle_backup_import false db files data_dir caller part =
      ((failed 503 "backup.unavailable", db), files)
  handle_backup_import true db files data_dir caller none =
      ((failed 400 "backup.invalid_upload", db), files)
  handle_backup_import true db files data_dir caller (some upload) =
      let (e, files') = import_backup files data_dir upload in (respond_import db caller e, files')

abbrev pub backup_path : String → String → String
backup_path db_path stamp = db_path ++ (".bak-" ++ stamp)

abbrev pub wal_path : String → String
wal_path db_path = db_path ++ "-wal"

abbrev pub shm_path : String → String
shm_path db_path = db_path ++ "-shm"

-- What is done with the current database, where there is one.
unfoldable pub preserve : Files → String → String → Files
unfolding rename
preserve files db_path stamp = elim (files db_path) [
  | none ↦ files
  | some old ↦
      update (update (rename files db_path (backup_path db_path stamp)) (wal_path db_path) none)
        (shm_path db_path) none
]

-- ApplyPendingRestore; `stamp` is the time of the start.
unfoldable pub apply_pending_restore : Files → String → String → String → Bool × Files
unfolding preserve rename
apply_pending_restore files data_dir db_path stamp = elim (files (join data_dir pending_name)) [
  | none ↦ (false, files)
  | some staged ↦ (true, rename (preserve files db_path stamp) (join data_dir pending_name) db_path)
]
