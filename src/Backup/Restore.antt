-- ===== src/Backup/Restore.antt =====
-- An import and the restart after it: Import and ApplyPendingRestore of
-- backend/internal/backup/backup.go.
use helboot.Prelude.{
  String, ◌≡◌, ◌≢◌, refl, sym, true, false, Option, none, some, update, arith, String_eq, eq-false,
}
use helboot.Filepath.{join}
use helboot.Model.{User}
use helboot.Store.Db.{Db}
use helboot.Api.Respond.{failed}
use helboot.Backup.{
  respond_import, handle_backup_import, Files, rename, Archive, entry, gzip, Formats, ImportError,
  database, entry_kind, pending_name, validate_sqlite, stage_database, import_entry, import_entries,
  import_backup, backup_path, wal_path, shm_path, preserve, apply_pending_restore,
}
use helboot.Backup.Import.{
  equal, update_same, Foreign, Safe, import_backup-Safe, Staged, StagedLoop, import_entries-Staged,
  Foreign-import,
}

-- The files of a restore are different files.
pub record Apart (data_dir db_path stamp : String) : Type 0 where
  pub db_pending : db_path ≢ join data_dir pending_name
  pub backup_pending : backup_path db_path stamp ≢ join data_dir pending_name
  pub wal_pending : wal_path db_path ≢ join data_dir pending_name
  pub shm_pending : shm_path db_path ≢ join data_dir pending_name
  pub db_backup : db_path ≢ backup_path db_path stamp
  pub db_wal : db_path ≢ wal_path db_path
  pub db_shm : db_path ≢ shm_path db_path
  pub wal_backup : wal_path db_path ≢ backup_path db_path stamp
  pub shm_backup : shm_path db_path ≢ backup_path db_path stamp

-- A restart where a database is staged: it is the database from then on, the database before it, if
-- any, is kept in the backup file, and its log files are gone.
pub record Restored (before after : Files) (data_dir db_path stamp content : String) : Type 0 where
  pub active : after db_path ≡ some content
  pub consumed : after (join data_dir pending_name) ≡ none
  pub kept : before db_path ≢ none → after (backup_path db_path stamp) ≡ before db_path
  pub no_wal : before db_path ≢ none → after (wal_path db_path) ≡ none
  pub no_shm : before db_path ≢ none → after (shm_path db_path) ≡ none

pub apply_pending_restore-Restored :
    (files : Files) (data_dir db_path stamp content : String)
    → Apart data_dir db_path stamp
    → files (join data_dir pending_name) ≡ some content
    → ((apply_pending_restore files data_dir db_path stamp).0 ≡ true)
      × Restored files
          (apply_pending_restore files data_dir db_path stamp).1
          data_dir
          db_path
          stamp
          content
unfolding apply_pending_restore preserve rename
apply_pending_restore-Restored files data_dir db_path stamp content apart staged =
    let pending = join data_dir pending_name in
    let backup = backup_path db_path stamp in
    let wal = wal_path db_path in
    let shm = shm_path db_path in
    let same_pending = equal pending in
    let same_db = equal db_path in
    let same_backup = equal backup in
    let same_wal = equal wal in
    let same_shm = equal shm in
    let db_pending = eq-false db_path pending apart.db_pending in
    let pending_db = eq-false pending db_path (λ e. apart.db_pending (sym e)) in
    let backup_pending = eq-false backup pending apart.backup_pending in
    let pending_backup = eq-false pending backup (λ e. apart.backup_pending (sym e)) in
    let wal_pending = eq-false wal pending apart.wal_pending in
    let pending_wal = eq-false pending wal (λ e. apart.wal_pending (sym e)) in
    let shm_pending = eq-false shm pending apart.shm_pending in
    let pending_shm = eq-false pending shm (λ e. apart.shm_pending (sym e)) in
    let db_backup = eq-false db_path backup apart.db_backup in
    let db_wal = eq-false db_path wal apart.db_wal in
    let db_shm = eq-false db_path shm apart.db_shm in
    let wal_backup = eq-false wal backup apart.wal_backup in
    let shm_backup = eq-false shm backup apart.shm_backup in ground arith

-- Where an import is accepted, it leaves all files but the staged one as they were, and the
-- database that it staged, which SQLite and the schema accept, is in use after the next start; the
-- database before it, if any, is kept in the backup file, and the log files of that are gone. The
-- paths of these files differ.
pub import-restart :
    (f : Formats) (files : Files) (data_dir db_path stamp : String) (archive : Archive)
    → Apart data_dir db_path stamp
    → (import_backup f files data_dir (gzip archive)).0 ≡ none
    → let files' = (import_backup f files data_dir (gzip archive)).1 in
      Safe f data_dir files files'
      × ((content : String) × (validate_sqlite f content ≡ true)
          × Restored files'
              (apply_pending_restore files' data_dir db_path stamp).1
              data_dir
              db_path
              stamp
              content)
unfolding import_backup Staged StagedLoop
import-restart f files data_dir db_path stamp archive apart accepted =
    let files' = (import_backup f files data_dir (gzip archive)).1 in
    let (content, staged, good) =
      import_entries-Staged f data_dir archive files false false (λ e. cc) accepted in
    let (_, restored) =
      apply_pending_restore-Restored files' data_dir db_path stamp content apart staged in
    (import_backup-Safe f data_dir files (gzip archive), (content, good, restored))

respond_import-failed :
    (db : Db) (caller : Option User) (e : Option ImportError)
    → e ≢ none
    → respond_import db caller e ≡ (failed 400 "backup.invalid_archive", db)
unfolding respond_import
respond_import-failed db caller none h = absurd (h refl)
respond_import-failed db caller (some e) h = refl

-- An archive whose database is usable is staged as soon as that entry is read: where the entries
-- after it are neither a manifest nor a database, the request is answered with 400, and still the
-- database of the archive replaces the current one at the next start. The paths of these files
-- differ.
pub rejected_import_restores :
    (f : Formats) (db : Db) (caller : Option User) (files : Files)
    (data_dir db_path stamp name content : String) (rest : Archive)
    → Apart data_dir db_path stamp
    → entry_kind name ≡ database
    → validate_sqlite f content ≡ true
    → Foreign rest
    → let upload = gzip (entry name content rest) in
      let handled = handle_backup_import f true db files data_dir caller (some upload) in
      let restarted = apply_pending_restore handled.1 data_dir db_path stamp in
      (handled.0 ≡ (failed 400 "backup.invalid_archive", db))
      × (restarted.0 ≡ true)
      × (restarted.1 db_path ≡ some content)
unfolding handle_backup_import import_backup import_entries import_entry stage_database
rejected_import_restores f db caller files data_dir db_path stamp name content rest apart k good h =
    let staged = update files (join data_dir pending_name) (some content) in
    let (refused, kept) = Foreign-import f data_dir rest staged true h in
    let (swapped, restored) =
      apply_pending_restore-Restored staged data_dir db_path stamp content apart
        (update_same files (join data_dir pending_name) (some content)) in
    rw
      (
        k, handle_backup_import, import_backup, import_entries, import_entry, stage_database, good,
        kept,
      )
      (respond_import-failed db caller _ refused, swapped, restored.active)
