-- ===== src/Api/Installations/Reachable.antt =====
-- The database under any sequence of the handlers that change the hosts or the installations:
-- backend/internal/api/handlers_installations.go, handlers_hosts.go, and backend/internal/boot.
-- A step is a whole handler; the handlers run one at a time.
use helboot.Prelude.{ℕ, String, Option, arith}
use helboot.Time.{Time}
use helboot.Model.{User}
use helboot.Store.Db.{Db, empty_db}
use helboot.Store.Installations.Active.{OneActive}
use helboot.Provider.Manifest.{Registry}
use helboot.Answer.{Engine}
use helboot.Boot.Serve.{handle_script, handle_report}
use helboot.Boot.Queue.{handle_script-OneActive, handle_report-OneActive}
use helboot.Api.Hosts.{HostRequest, handle_create_host, handle_update_host, handle_delete_host}
use helboot.Api.Hosts.Queue.{
  handle_create_host-OneActive, handle_update_host-OneActive, handle_delete_host-OneActive,
}
use helboot.Api.Installations.{
  CreateRequest, handle_create_installation, handle_delete_installation,
}
use helboot.Api.Installations.Queue.{
  handle_create_installation-OneActive, handle_delete_installation-OneActive,
}

module _ (engine : Engine) (stamp : Time → String) where
  pub data Step (db : Db) : Db → Type 0 where
    create :
        (caller : User) (body : Option CreateRequest) (token : Option String) (now : Time)
        → Step db (handle_create_installation db caller body token now).1
    cancel : (caller : User) (id : Option ℕ) → Step db (handle_delete_installation db caller id).1
    add_host :
        (caller : User) (body : Option HostRequest) (now : Time)
        → Step db (handle_create_host db caller body now).1
    edit_host :
        (id : Option ℕ) (body : Option HostRequest) (now : Time)
        → Step db (handle_update_host db id body now).1
    remove_host : (caller : User) (id : Option ℕ) → Step db (handle_delete_host db caller id).1
    boot :
        (reg : Registry) (base : String) (mac arch firmware : String) (now : Time)
        → Step db (handle_script engine db reg base mac arch firmware now).2
    report :
        (reg : Registry) (token status : String) (now : Time)
        → Step db (handle_report stamp db reg token status now).1

  pub data Steps (start : Db) : Db → Type 0 where
    none_yet : Steps start start
    after : {db db' : Db} → Steps start db → Step db db' → Steps start db'

  step-OneActive : {db db' : Db} → Step db db' → OneActive db → OneActive db'
  step-OneActive (create caller body token now) v =
      handle_create_installation-OneActive _ caller body token now v
  step-OneActive (cancel caller id) v = handle_delete_installation-OneActive _ caller id v
  step-OneActive (add_host caller body now) v = handle_create_host-OneActive _ caller body now v
  step-OneActive (edit_host id body now) v = handle_update_host-OneActive _ id body now v
  step-OneActive (remove_host caller id) v = handle_delete_host-OneActive _ caller id v
  step-OneActive (boot reg base mac arch firmware now) v =
      handle_script-OneActive engine _ reg base mac arch firmware now v
  step-OneActive (report reg token status now) v =
      handle_report-OneActive stamp _ reg token status now v

  -- Whatever requests the handlers of hosts, installations and the boot endpoints serve one after
  -- another, a database in which each host has at most one active installation stays so.
  pub steps-OneActive : {db db' : Db} → Steps db db' → OneActive db → OneActive db'
  steps-OneActive none_yet v = v
  steps-OneActive (after run s) v = step-OneActive s (steps-OneActive run v)

pub empty_db-OneActive : OneActive empty_db
empty_db-OneActive = record { at_host = λ host. omega arith }
