-- ===== src/Boot/Reports.antt =====
-- What a report of an installer changes: handleReport of backend/internal/boot/install.go.
use Prim.Native.String.{◌++◌}
use helboot.Prelude.{ℕ, ◌≡◌, ◌≢◌, refl, ap, String, Bool, true, some, arith, ◌==◌, ℕ_eq, String_eq}
use helboot.Time.{Time, format_time}
use helboot.Model.{Host, Installation, InstallationStatus}
use helboot.Store.Db.{Db, ok, or_not_found, change}
use helboot.Store.Db.Counting.{first_exists, first-change_same, first-change_other}
use helboot.Store.Hosts.{update_host}
use helboot.Store.Installations.{
  is_final, installation_by_token, installation_by_id, active_installation_for_host,
  mark_installation_finished,
}
use helboot.Store.Installations.Active.{active_of}
use helboot.Provider.Manifest.{Registry}
use helboot.Boot.Context.{InstallContext, resolved, context_by_token}
use helboot.Boot.Serve.{
  keep_host, report_status, log_line, host_status_after, finished, finish, report_as, report_in,
  handle_report,
}
use helboot.Boot.Tokens.{context_by_token_active}

-- The installation with the identifier has the status, the instant and one more line of log, and
-- every other installation is as it was.
pub record Finished (db : Db) (id : ℕ) (status : InstallationStatus) (line : String) (now : Time)
    (db' : Db) : Type 0 where
  pub before : Installation
  pub found : installation_by_id db id ≡ ok before
  pub now_finished :
      installation_by_id db' id
      ≡ ok (record before {
        status = status;
        finished_at = some (format_time now);
        log = before.log ++ line;
      })
  pub others : (k : ℕ) → k ≢ id → installation_by_id db' k ≡ installation_by_id db k

report_status-final :
    (s : String) (status : InstallationStatus)
    → report_status s ≡ some status
    → is_final status ≡ true
unfolding report_status is_final
report_status-final s status h = ground arith

keep_host_installations :
    (db : Db) (h : Host) (now : Time) → (keep_host db h now).installations ≡ db.installations
unfolding keep_host update_host
keep_host_installations db h now = ground arith

mark_installation_finished_lem :
    (db : Db) (id : ℕ) (status : InstallationStatus) (line : String) (now : Time)
    (before : Installation)
    → is_final status ≡ true
    → installation_by_id db id ≡ ok before
    → (db' : Db) × (mark_installation_finished db id status line now ≡ ok db')
      × Finished db id status line now db'
unfolding mark_installation_finished installation_by_id
mark_installation_finished_lem db id status line now before final found =
    let p : Installation → Bool = λ i. i.id == id in
    let f : Installation → Installation = λ i. record i {
      status = status;
      finished_at = some (format_time now);
      log = i.log ++ line;
    } in
    let rows = change p f db.installations in
    let written = first-change_same p f db.installations before (λ y e. e) in
    (
      record db { installations = rows },
      ground arith,
      record {
        before = before;
        found = found;
        now_finished = ground arith;
        others = λ k apart. ap or_not_found (
            first-change_other (λ i. i.id == k) p f db.installations
              λ y e.
                let same = (ℕ_eq.equals_iff y.id id).0 in
                let other = (ℕ_eq.equals_iff y.id k).0 in ground arith);
      },
    )

Finished-keep_host :
    (db db' : Db) (id : ℕ) (status : InstallationStatus) (line : String) (now : Time) (h : Host)
    → Finished db id status line now db'
    → Finished db id status line now (keep_host db' h now)
unfolding installation_by_id
Finished-keep_host db db' id status line now h v =
    let same = keep_host_installations db' h now in
    record {
      before = v.before;
      found = v.found;
      now_finished = rw same v.now_finished;
      others = λ k apart. rw same (v.others k apart);
    }

active_found :
    (db : Db) (host : ℕ) (i : Installation)
    → active_installation_for_host db host ≡ ok i
    → (b : Installation) × (installation_by_id db i.id ≡ ok b)
unfolding active_installation_for_host installation_by_id
active_found db host i h =
    let same = (ℕ_eq.equals_iff i.id i.id).1 refl in
    let (b, found) =
      first_exists (λ k. k.id == i.id) (active_of host) db.installations i (ground arith) same in
    (b, ap or_not_found found)

module _ (stamp : Time → String) where
  -- A report on a token that resolves, with the status `success` or `error`, is answered by 204,
  -- and finishes the active installation of the token's host: its status is the reported one, the
  -- instant and a line of log are written, and all other installations stay as they were.
  pub handle_report-Finished :
      (db : Db) (reg : Registry) (token param : String) (now : Time) (i : Installation)
      (ic : InstallContext) (status : InstallationStatus)
      → installation_by_token db token ≡ ok i
      → context_by_token db reg token ≡ resolved ic
      → report_status param ≡ some status
      → (active_installation_for_host db i.host_id ≡ ok ic.install)
        × ((handle_report stamp db reg token param now).0 ≡ 204)
        × Finished db ic.install.id status
            (log_line stamp status now)
            now
            (handle_report stamp db reg token param now).1
  unfolding handle_report report_in report_as finish finished mark_installation_finished
  handle_report-Finished db reg token param now i ic status found res known =
      let (of_host, active) = context_by_token_active db reg token i ic found res in
      let (before, stored) = active_found db i.host_id ic.install active in
      let (db', written, v) =
        mark_installation_finished_lem db ic.install.id status (log_line stamp status now) now
          before (report_status-final param status known) stored in
      let h = record ic.host { status = host_status_after status } in
      let v' = Finished-keep_host db db' ic.install.id status (log_line stamp status now) now h v in
      (
        active,
        rw (handle_report, res, known, written) refl,
        rw (handle_report, res, known, written) v',
      )
