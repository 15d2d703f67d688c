-- ===== src/Store/Installations/Active.antt =====
-- At most one installation of a host is active: backend/internal/store/installations.go.
use Prim.Native.String.{◌++◌}
use helboot.Prelude.{
  ℕ, ◌≤◌, String, ◌≡◌, refl, Bool, true, false, not, ◌&&◌, some, arith, ◌==◌, ℕ_eq,
}
use helboot.Time.{Time, format_time}
use helboot.Model.{InstallationStatus, install_waiting, install_running, Installation, Host}
use helboot.Store.Db.{Db, ok, err, not_found, count_if}
use helboot.Store.Db.Counting.{count_if-keep, count_if-change, count_if-first-none}
use helboot.Store.Hosts.{create_host, update_host, delete_host}
use helboot.Store.Installations.{
  is_waiting, is_active, is_final, create_installation, active_installation_for_host,
  mark_installation_started, mark_installation_finished, delete_installation,
}

abbrev pub active_of : ℕ → Installation → Bool
active_of host i = i.host_id == host && is_active i.status

-- What the comment on ActiveInstallationForHost promises.
pub record OneActive (db : Db) : Type 0 where
  pub at_host : (host : ℕ) → count_if (active_of host) db.installations ≤ 1

pub active_none :
    (db : Db) (host : ℕ)
    → active_installation_for_host db host ≡ err not_found
    → count_if (active_of host) db.installations ≡ 0
unfolding active_installation_for_host
active_none db host h = count_if-first-none (active_of host) db.installations (ground arith)

waiting_active : (s : InstallationStatus) → is_waiting s ≡ true → is_active s ≡ true
unfolding is_waiting is_active
waiting_active s h = ground arith

final_inactive : (s : InstallationStatus) → is_final s ≡ true → is_active s ≡ false
unfolding is_final is_active
final_inactive s h = ground arith

pub create_installation-OneActive :
    (db db' : Db) (host_id version_id : ℕ) (token : String) (now : Time) (i : Installation)
    → active_installation_for_host db host_id ≡ err not_found
    → create_installation db host_id version_id token now ≡ ok (i, db')
    → OneActive db
    → OneActive db'
unfolding create_installation
create_installation-OneActive db db' host_id version_id token now i free h v = record {
  at_host = λ host. ground (arith, active_none db host_id free, v.at_host host);
}

pub mark_installation_started-OneActive :
    (db : Db) (id : ℕ) (now : Time) → OneActive db → OneActive (mark_installation_started db id now)
unfolding mark_installation_started
mark_installation_started-OneActive db id now v = record {
  at_host = λ host. omega (
    arith,
    v.at_host host,
    count_if-change (active_of host) (λ i. i.id == id && is_waiting i.status)
        (λ i. record i { status = install_running; started_at = some (format_time now) })
        db.installations (λ i p q. ground (arith, waiting_active i.status)),
  );
}

pub mark_installation_finished-OneActive :
    (db db' : Db) (id : ℕ) (status : InstallationStatus) (log_line : String) (now : Time)
    → mark_installation_finished db id status log_line now ≡ ok db'
    → OneActive db
    → OneActive db'
unfolding mark_installation_finished
mark_installation_finished-OneActive db db' id status log_line now h v = record {
  at_host = λ host. ground (
    arith,
    v.at_host host,
    count_if-change (active_of host) (λ i. i.id == id)
        (λ i. record i {
          status = status;
          finished_at = some (format_time now);
          log = i.log ++ log_line;
        })
        db.installations (λ i p q. absurd (ground (arith, final_inactive status))),
  );
}

pub delete_installation-OneActive :
    (db db' : Db) (id : ℕ) → delete_installation db id ≡ ok db' → OneActive db → OneActive db'
unfolding delete_installation
delete_installation-OneActive db db' id h v = record {
  at_host = λ host. ground (
    arith,
    v.at_host host,
    count_if-keep (active_of host) (λ i. not (i.id == id && is_waiting i.status)) db.installations,
  );
}

pub delete_host-OneActive :
    (db db' : Db) (id : ℕ) → delete_host db id ≡ ok db' → OneActive db → OneActive db'
unfolding delete_host
delete_host-OneActive db db' id h v = record {
  at_host = λ host. ground (
    arith,
    v.at_host host,
    count_if-keep (active_of host) (λ i. not (i.host_id == id)) db.installations,
  );
}

pub create_host-OneActive :
    (db db' : Db) (h row : Host) (now : Time)
    → create_host db h now ≡ ok (row, db')
    → OneActive db
    → OneActive db'
unfolding create_host
create_host-OneActive db db' h row now e v = record {
  at_host = λ host. ground (arith, v.at_host host);
}

pub update_host-OneActive :
    (db db' : Db) (h row : Host) (now : Time)
    → update_host db h now ≡ ok (row, db')
    → OneActive db
    → OneActive db'
unfolding update_host
update_host-OneActive db db' h row now e v = record {
  at_host = λ host. ground (arith, v.at_host host);
}

-- The row that was inserted is the host's active installation.
pub create_installation_row :
    (db db' : Db) (host_id version_id : ℕ) (token : String) (now : Time) (i : Installation)
    → create_installation db host_id version_id token now ≡ ok (i, db')
    → (i.profile_version_id ≡ version_id)
      × (i.host_id ≡ host_id)
      × (i.status ≡ install_waiting)
      × (active_installation_for_host db' host_id ≡ ok i)
unfolding create_installation active_installation_for_host is_active
create_installation_row db db' host_id version_id token now i h =
    let same = (ℕ_eq.equals_iff host_id host_id).1 refl in ground arith
