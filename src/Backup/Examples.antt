-- ===== src/Backup/Examples.antt =====
-- Imports of small archives: backend/internal/backup/backup.go. A database is usable here where its
-- text is "new".
use helboot.Prelude.{
  String, ◌≡◌, refl, true, none, some, ◌==◌, String_eq, ne_of_eq-false, if◌then◌else◌,
}
use helboot.Store.Db.{empty_db}
use helboot.Api.Respond.{Handled, failed}
use helboot.Backup.{
  handle_backup_import, Files, entry, end_of_file, gzip, Formats, import_backup, validate_sqlite,
  apply_pending_restore,
}
use helboot.Backup.Import.{Safe}
use helboot.Backup.Restore.{Apart, Restored, import-restart, rejected_import_restores}

abbrev formats : Formats
formats = record {
  application = λ s. some s;
  integrity_check = λ s. if s == "new" then some "ok" else some "malformed";
  migration_tables = λ s. some 1;
}

abbrev disk : Files
disk p =
    if p == "data/helboot.db"
    then some "old"
    else if p == "data/helboot.db-wal"
    then some "log"
    else none

apart : Apart "data" "data/helboot.db" "now"
unfolding helboot.Filepath.join helboot.Filepath.clean helboot.Filepath.visit
    helboot.Filepath.is_rooted
apart = record {
  db_pending = ne_of_eq-false "data/helboot.db" "data/restore-pending.db" refl;
  backup_pending = ne_of_eq-false "data/helboot.db.bak-now" "data/restore-pending.db" refl;
  wal_pending = ne_of_eq-false "data/helboot.db-wal" "data/restore-pending.db" refl;
  shm_pending = ne_of_eq-false "data/helboot.db-shm" "data/restore-pending.db" refl;
  db_backup = ne_of_eq-false "data/helboot.db" "data/helboot.db.bak-now" refl;
  db_wal = ne_of_eq-false "data/helboot.db" "data/helboot.db-wal" refl;
  db_shm = ne_of_eq-false "data/helboot.db" "data/helboot.db-shm" refl;
  wal_backup = ne_of_eq-false "data/helboot.db-wal" "data/helboot.db.bak-now" refl;
  shm_backup = ne_of_eq-false "data/helboot.db-shm" "data/helboot.db.bak-now" refl;
}

abbrev imported : Files
imported =
    (import_backup formats disk "data"
      (gzip (entry "manifest.json" "helboot" (entry "./helboot.db" "new" end_of_file)))).1

import-restart_example :
    Safe formats "data" disk imported
    × ((content : String) × (validate_sqlite formats content ≡ true)
        × Restored imported
            (apply_pending_restore imported "data" "data/helboot.db" "now").1
            "data"
            "data/helboot.db"
            "now"
            content)
unfolding import_backup helboot.Filepath.clean helboot.Filepath.is_rooted helboot.Filepath.visit
    validate_sqlite
import-restart_example =
    import-restart formats disk "data" "data/helboot.db" "now"
      (entry "manifest.json" "helboot" (entry "./helboot.db" "new" end_of_file)) apart refl

abbrev rejected : Handled (Unit {0}) × Files
rejected =
    handle_backup_import formats true empty_db disk "data" none
      (some (gzip (entry "helboot.db" "new" end_of_file)))

rejected_import_restores_example :
    (rejected.0 ≡ (failed 400 "backup.invalid_archive", empty_db))
    × ((apply_pending_restore rejected.1 "data" "data/helboot.db" "now").0 ≡ true)
    × ((apply_pending_restore rejected.1 "data" "data/helboot.db" "now").1 "data/helboot.db"
        ≡ some "new")
unfolding helboot.Backup.entry_kind helboot.Filepath.clean helboot.Filepath.is_rooted
    helboot.Filepath.visit validate_sqlite
rejected_import_restores_example =
    rejected_import_restores formats empty_db none disk "data" "data/helboot.db" "now" "helboot.db"
      "new" end_of_file apart refl refl tt
