-- ===== src/Boot/Queue.antt =====
-- The boot endpoints and the queue: backend/internal/boot/boot.go and install.go.
use helboot.Prelude.{
  ◌≡◌, refl, String, Bool, true, false, Option, none, some, inl, inr, if◌then◌else◌, contains,
}
use helboot.Time.{Time}
use helboot.Network.Mac.{normalize_mac}
use helboot.Model.{Host, InstallationStatus, installing}
use helboot.Store.Db.{Db, Result, ok, err, not_found, Result-cases}
use helboot.Store.Hosts.{host_by_mac, create_host, update_host}
use helboot.Store.Installations.{is_waiting, mark_installation_started, mark_installation_finished}
use helboot.Store.Installations.Active.{
  OneActive, mark_installation_started-OneActive, mark_installation_finished-OneActive,
  create_host-OneActive, update_host-OneActive,
}
use helboot.Provider.Manifest.{Registry}
use helboot.Answer.{Engine}
use helboot.Boot.Context.{
  InstallContext, Loaded, nothing_queued, not_bootable, store_failure, loaded, load_install_context,
  ByToken, refused, resolved, context_by_token,
}
use helboot.Boot.Script.{install_script}
use helboot.Boot.Serve.{
  keep_host, mark_installing, serve_script, recovered, serve_loaded, script_for, new_host,
  discover_host, script_or_discover, script_for_mac, handle_script, report_status, log_line,
  host_status_after, finished, finish, report_as, report_in, handle_report,
}

keep_host-OneActive :
    (db : Db) (h : Host) (now : Time) → OneActive db → OneActive (keep_host db h now)
unfolding keep_host
keep_host-OneActive db h now v = elim (Result-cases (update_host db h now)) [
  | inl (e, g) ↦ rw (keep_host, g) v
  | inr ((row, db'), g) ↦ rw (keep_host, g) (update_host-OneActive db db' h row now g v)
]

mark_installing-OneActive :
    (db : Db) (ic : InstallContext) (now : Time)
    → OneActive db
    → OneActive (mark_installing db ic now)
unfolding mark_installing
mark_installing-OneActive db ic now v = go (is_waiting ic.install.status)
  where
    go :
        (b : Bool)
        → OneActive (
            if b
            then keep_host
                (mark_installation_started db ic.install.id now)
                (record ic.host { status = installing })
                now
            else db)
    go true =
        keep_host-OneActive (mark_installation_started db ic.install.id now)
          (record ic.host { status = installing }) now
          (mark_installation_started-OneActive db ic.install.id now v)
    go false = v

discover_host-OneActive :
    (db : Db) (mac arch firmware : String) (now : Time)
    → OneActive db
    → OneActive (discover_host db mac arch firmware now).1
unfolding discover_host
discover_host-OneActive db mac arch firmware now v =
    let host = new_host mac arch firmware in
    elim (Result-cases (create_host db host now)) [
      | inl (e, h) ↦ rw (discover_host, h) v
      | inr ((row, db'), h) ↦ rw (discover_host, h) (create_host-OneActive db db' host row now h v)
    ]

serve_script-OneActive :
    (db : Db) (ic : InstallContext) (now : Time) (script : Option String)
    → OneActive db
    → OneActive (serve_script db ic now script).1
unfolding serve_script
serve_script-OneActive db ic now none v = v
serve_script-OneActive db ic now (some script) v = go (contains script "\nboot\n")
  where
    go : (b : Bool) → OneActive (if b then mark_installing db ic now else db)
    go true = mark_installing-OneActive db ic now v
    go false = v

recovered-OneActive : (r : Option String × Db) → OneActive r.1 → OneActive (recovered r).2
unfolding recovered
recovered-OneActive (none, db) v = v
recovered-OneActive (some script, db) v = v

module _ (engine : Engine) where
  serve_loaded-OneActive :
      (db : Db) (base : String) (host : Host) (now : Time) (l : Loaded)
      → OneActive db
      → OneActive (serve_loaded engine db base host now l).1
  unfolding serve_loaded
  serve_loaded-OneActive db base host now (loaded ic) v =
      serve_script-OneActive db ic now (install_script engine base ic) v
  serve_loaded-OneActive db base host now (not_bootable reason) v = v
  serve_loaded-OneActive db base host now store_failure v = v
  serve_loaded-OneActive db base host now nothing_queued v = v

  script_for-OneActive :
      (db : Db) (reg : Registry) (base : String) (host : Host) (now : Time)
      → OneActive db
      → OneActive (script_for engine db reg base host now).1
  unfolding script_for
  script_for-OneActive db reg base host now v =
      serve_loaded-OneActive db base host now (load_install_context db reg host) v

  script_or_discover-OneActive :
      (db : Db) (reg : Registry) (base mac arch firmware : String) (now : Time) (r : Result Host)
      → OneActive db
      → OneActive (script_or_discover engine db reg base mac arch firmware now r).2
  unfolding script_or_discover
  script_or_discover-OneActive db reg base mac arch firmware now (ok host) v =
      recovered-OneActive (script_for engine db reg base host now)
        (script_for-OneActive db reg base host now v)
  script_or_discover-OneActive db reg base mac arch firmware now (err not_found) v =
      let (host, db') = discover_host db mac arch firmware now in
      recovered-OneActive (script_for engine db' reg base host now) (
        script_for-OneActive db' reg base host now
          (discover_host-OneActive db mac arch firmware now v))
  script_or_discover-OneActive db reg base mac arch firmware now (err e) v = v

  script_for_mac-OneActive :
      (db : Db) (reg : Registry) (base : String) (mac : Option String) (arch firmware : String)
      (now : Time)
      → OneActive db
      → OneActive (script_for_mac engine db reg base mac arch firmware now).2
  unfolding script_for_mac
  script_for_mac-OneActive db reg base none arch firmware now v = v
  script_for_mac-OneActive db reg base (some mac) arch firmware now v =
      script_or_discover-OneActive db reg base mac arch firmware now (host_by_mac db mac) v

  pub handle_script-OneActive :
      (db : Db) (reg : Registry) (base mac arch firmware : String) (now : Time)
      → OneActive db
      → OneActive (handle_script engine db reg base mac arch firmware now).2
  unfolding handle_script
  handle_script-OneActive db reg base mac arch firmware now v =
      script_for_mac-OneActive db reg base (normalize_mac mac) arch firmware now v

module _ (stamp : Time → String) where
  finished-OneActive :
      (db : Db) (ic : InstallContext) (status : InstallationStatus) (now : Time) (r : Result Db)
      → mark_installation_finished db ic.install.id status (log_line stamp status now) now ≡ r
      → OneActive db
      → OneActive (finished stamp db ic status now r).1
  unfolding finished
  finished-OneActive db ic status now (ok db') h v =
      keep_host-OneActive db' (record ic.host { status = host_status_after status }) now
        (mark_installation_finished-OneActive db db' ic.install.id status
          (log_line stamp status now) now h v)
  finished-OneActive db ic status now (err e) h v = v

  report_in-OneActive :
      (db : Db) (now : Time) (s : Option InstallationStatus) (ic : InstallContext)
      → OneActive db
      → OneActive (report_as stamp db now ic s).1
  unfolding report_as finish
  report_in-OneActive db now none ic v = v
  report_in-OneActive db now (some status) ic v = finished-OneActive db ic status now _ refl v

  pub handle_report-OneActive :
      (db : Db) (reg : Registry) (token param : String) (now : Time)
      → OneActive db
      → OneActive (handle_report stamp db reg token param now).1
  unfolding handle_report report_in
  handle_report-OneActive db reg token param now v = go (context_by_token db reg token)
    where
      go : (c : ByToken) → OneActive (report_in stamp db param now c).1
      go (refused code) = v
      go (resolved ic) = report_in-OneActive db now (report_status param) ic v
