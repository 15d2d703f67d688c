-- ===== src/Boot/Serve.antt =====
-- The handlers that change state: handleScript, discover, scriptFor, markInstalling of
-- backend/internal/boot/boot.go and install.go, and handleReport of install.go.
use Prim.Native.String.{◌++◌}
use helboot.Prelude.{
  ℕ, String, [], Option, none, some, ◌==◌, String_eq, if◌then◌else◌, contains, drop_unprintable,
  take_chars, lower_is,
}
use helboot.Time.{Time}
use helboot.Network.Mac.{normalize_mac}
use helboot.Model.{
  Host, HostStatus, discovered, ready, installing, error, InstallationStatus, install_success,
  install_error,
}
use helboot.Store.Db.{Db, Result, ok, err, not_found}
use helboot.Store.Hosts.{host_by_mac, create_host, update_host}
use helboot.Store.Installations.{is_waiting, mark_installation_started, mark_installation_finished}
use helboot.Provider.Manifest.{Registry}
use helboot.Answer.{Engine}
use helboot.Boot.Context.{
  InstallContext, Loaded, nothing_queued, not_bootable, store_failure, loaded, load_install_context,
  ByToken, refused, resolved, context_by_token,
}
use helboot.Boot.Script.{message_script, install_script, idle_script}

-- A failure to update the host is only logged.
unfoldable pub keep_host : Db → Host → Time → Db
keep_host db h now = elim (update_host db h now) [ err e ↦ db | ok (row, db') ↦ db' ]

unfoldable pub mark_installing : Db → InstallContext → Time → Db
unfolding keep_host is_waiting
mark_installing db ic now =
    if is_waiting ic.install.status
    then keep_host (mark_installation_started db ic.install.id now)
        (record ic.host { status = installing }) now
    else db

-- The script of an installation; a panic leaves the installation as it was.
unfoldable pub serve_script : Db → InstallContext → Time → Option String → Option String × Db
serve_script db ic now none = (none, db)
serve_script db ic now (some script) =
    (some script, if contains script "\nboot\n" then mark_installing db ic now else db)

module _ (engine : Engine) where
  -- `none` is a panic.
  unfoldable pub serve_loaded : Db → String → Host → Time → Loaded → Option String × Db
  unfolding serve_script
  serve_loaded db base host now (loaded ic) = serve_script db ic now (install_script engine base ic)
  serve_loaded db base host now (not_bootable reason) = (
    some (message_script ("installation for " ++ (host.mac ++ (" is not bootable: " ++ reason)))),
    db,
  )
  serve_loaded db base host now store_failure =
      (some (message_script "internal error, check the HELBOOT logs"), db)
  serve_loaded db base host now nothing_queued = (some (idle_script host host.status), db)

  unfoldable pub script_for : Db → Registry → String → Host → Time → Option String × Db
  unfolding serve_loaded
  script_for db reg base host now = serve_loaded db base host now (load_install_context db reg host)

-- recoverPanics of backend/internal/api/middleware.go answers a panic by 500; the error's code is
-- given for the body.
unfoldable pub recovered : Option String × Db → ℕ × String × Db
recovered (none, db) = (500, "internal", db)
recovered (some script, db) = (200, script, db)

unfoldable pub sanitize_param : String → String
unfolding drop_unprintable take_chars
sanitize_param s = take_chars 32 (drop_unprintable s)

unfoldable pub firmware_param : String → String
unfolding lower_is
firmware_param s = if lower_is s "efi" then "uefi" else if lower_is s "pcbios" then "bios" else ""

unfoldable pub new_host : String → String → String → Host
new_host mac arch firmware = record {
  id = 0;
  mac = mac;
  hostname = "";
  vendor = "";
  model = "";
  serial = "";
  asset_id = "";
  tags = [];
  firmware = firmware_param firmware;
  arch = sanitize_param arch;
  profile_id = none;
  profile_version = 0;
  status = discovered;
  created_at = 0;
  updated_at = 0;
}

-- A host that cannot be stored is served all the same.
unfoldable pub discover_host : Db → String → String → String → Time → Host × Db
discover_host db mac arch firmware now =
    let host = new_host mac arch firmware in
    elim (create_host db host now) [ err e ↦ (host, db) | ok (created, db') ↦ (created, db') ]

-- handleScript with the query parameters mac, arch and firmware. The result is the status code, the
-- body and the database.
module _ (engine : Engine) where
  unfoldable pub script_or_discover :
      Db → Registry → String → String → String → String → Time → Result Host → ℕ × String × Db
  unfolding recovered
  script_or_discover db reg base mac arch firmware now (ok host) =
      recovered (script_for engine db reg base host now)
  script_or_discover db reg base mac arch firmware now (err not_found) =
      let (host, db') = discover_host db mac arch firmware now in
      recovered (script_for engine db' reg base host now)
  script_or_discover db reg base mac arch firmware now (err e) = (500, "internal error", db)

  unfoldable pub script_for_mac :
      Db → Registry → String → Option String → String → String → Time → ℕ × String × Db
  unfolding script_or_discover
  script_for_mac db reg base none arch firmware now =
      (200, "#!ipxe\nchain /boot/ipxe?mac=${net0/mac}&arch=${buildarch}&firmware=${platform}\n", db)
  script_for_mac db reg base (some mac) arch firmware now =
      script_or_discover db reg base mac arch firmware now (host_by_mac db mac)

  unfoldable pub handle_script :
      Db → Registry → String → String → String → String → Time → ℕ × String × Db
  unfolding script_for_mac
  handle_script db reg base mac arch firmware now =
      script_for_mac db reg base (normalize_mac mac) arch firmware now

-- The final status of the query parameter.
unfoldable pub report_status : String → Option InstallationStatus
report_status s =
    if s == "success"
    then some install_success
    else if s == "error"
    then some install_error
    else none

unfoldable pub host_status_after : InstallationStatus → HostStatus
host_status_after install_success = ready
host_status_after _ = error

status_text : InstallationStatus → String
status_text install_success = "success"
status_text _ = "error"

-- `stamp` prints an instant by RFC 3339. The result is the status code of the response.
module _ (stamp : Time → String) where
  unfoldable pub log_line : InstallationStatus → Time → String
  unfolding status_text
  log_line status now =
      "[" ++ (stamp now ++ ("] installer reported " ++ (status_text status ++ "\n")))

  unfoldable pub finished : Db → InstallContext → InstallationStatus → Time → Result Db → ℕ × Db
  unfolding host_status_after
  finished db ic status now (err e) = (500, db)
  finished db ic status now (ok db') =
      (204, keep_host db' (record ic.host { status = host_status_after status }) now)

  unfoldable pub finish : Db → InstallContext → InstallationStatus → Time → ℕ × Db
  unfolding finished log_line
  finish db ic status now =
      finished db ic status now
        (mark_installation_finished db ic.install.id status (log_line status now) now)

  unfoldable pub report_as : Db → Time → InstallContext → Option InstallationStatus → ℕ × Db
  report_as db now ic none = (400, db)
  report_as db now ic (some status) = finish db ic status now

  unfoldable pub report_in : Db → String → Time → ByToken → ℕ × Db
  unfolding report_as
  report_in db param now (refused code) = (code, db)
  report_in db param now (resolved ic) = report_as db now ic (report_status param)

  unfoldable pub handle_report : Db → Registry → String → String → Time → ℕ × Db
  unfolding report_in
  handle_report db reg token param now = report_in db param now (context_by_token db reg token)
