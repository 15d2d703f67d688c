-- ===== src/Store/Installations.antt =====
-- The table installations: backend/internal/store/installations.go.
pub mod Active
use Prim.Native.String.{◌++◌}
use helboot.Prelude.{
  ℕ, ◌+◌, String, Bool, true, false, not, ◌&&◌, ◌||◌, List, ◌∷◌, Option, none, some, ◌==◌, ℕ_eq,
  String_eq, if◌then◌else◌, first, keep,
}
use helboot.Time.{Time, format_time}
use helboot.Model.{
  InstallationStatus, install_waiting, install_running, install_success, install_error,
  Installation, Host, ProfileVersion,
}
use helboot.Store.Db.{
  Db, Result, ok, err, not_found, invalid_final_status, constraint, or_not_found, exists, change,
}

unfoldable pub is_waiting : InstallationStatus → Bool
is_waiting install_waiting = true
is_waiting _ = false

-- status IN ('waiting', 'installing')
unfoldable pub is_active : InstallationStatus → Bool
is_active install_waiting = true
is_active install_running = true
is_active _ = false

unfoldable pub is_final : InstallationStatus → Bool
is_final install_success = true
is_final install_error = true
is_final _ = false

-- REFERENCES hosts (host_id), profile_versions (profile_version_id).
unfoldable pub create_installation : Db → ℕ → ℕ → String → Time → Result (Installation × Db)
create_installation db host_id version_id token now =
    let id = db.last_installation + 1 in
    let row : Installation = record {
      id = id;
      host_id = host_id;
      profile_version_id = version_id;
      status = install_waiting;
      started_at = none;
      finished_at = none;
      log = "";
      token = token;
      created_at = format_time now;
    } in
    if exists (λ h. h.id == host_id) db.hosts && exists (λ v. v.id == version_id) db.versions
    then ok (row, record db { installations = row ∷ db.installations; last_installation = id })
    else err constraint

unfoldable pub installation_by_id : Db → ℕ → Result Installation
installation_by_id db id = or_not_found (first (λ i. i.id == id) db.installations)

-- Tokens are random, so at most one row carries one.
unfoldable pub installation_by_token : Db → String → Result Installation
installation_by_token db token =
    if token == ""
    then err not_found
    else or_not_found (first (λ i. i.token == token) db.installations)

-- ORDER BY id DESC: the newest that is active.
unfoldable pub active_installation_for_host : Db → ℕ → Result Installation
unfolding is_active
active_installation_for_host db host_id =
    or_not_found (first (λ i. i.host_id == host_id && is_active i.status) db.installations)

unfoldable pub mark_installation_started : Db → ℕ → Time → Db
unfolding is_waiting
mark_installation_started db id now = record db {
  installations =
      change (λ i. i.id == id && is_waiting i.status)
        (λ i. record i { status = install_running; started_at = some (format_time now) })
        db.installations;
}

unfoldable pub mark_installation_finished : Db → ℕ → InstallationStatus → String → Time → Result Db
unfolding is_final
mark_installation_finished db id status log_line now =
    if not (is_final status)
    then err invalid_final_status
    else ok (record db {
      installations =
          change (λ i. i.id == id)
            (λ i. record i {
              status = status;
              finished_at = some (format_time now);
              log = i.log ++ log_line;
            })
            db.installations;
    })

-- Only a waiting installation is deleted.
unfoldable pub delete_installation : Db → ℕ → Result Db
unfolding is_waiting
delete_installation db id =
    if exists (λ i. i.id == id && is_waiting i.status) db.installations
    then ok (record db {
      installations = keep (λ i. not (i.id == id && is_waiting i.status)) db.installations;
    })
    else err not_found
