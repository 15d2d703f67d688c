-- ===== src/Api/Examples.antt =====
-- The theorems on the handlers at concrete databases and requests, and tests.
use helboot.Prelude.{
  ℕ, ◌≤◌, ◌≢◌, ◌≡◌, ◌↔◌, refl, String, true, false, [], Option, none, some, arith, byte_len,
  String_eq, ℕ_eq,
}
use helboot.Time.{Time}
use helboot.Model.{
  Role, operator, discovered, User, Session, Installation, install_waiting, install_success,
}
use helboot.Store.Db.{count_if, Db, empty_db, ok}
use helboot.Store.Hosts.{host_by_id, host_by_mac}
use helboot.Store.Installations.{is_active, installation_by_token, active_installation_for_host}
use helboot.Store.Installations.Active.{OneActive, active_of}
use helboot.Store.Users.Staff.{Staffed}
use helboot.Store.Settings.{setup_completed}
use helboot.Boot.Context.{InstallContext, resolved, context_by_token}
use helboot.Boot.Tokens.{context_by_token-other}
use helboot.Boot.Serve.{handle_script, discover_host, handle_report, log_line}
use helboot.Boot.Discovery.{discover_host-Recorded}
use helboot.Boot.Reports.{Finished, handle_report-Finished}
use helboot.Api.Fixtures.{
  root_user, pc, desktop, version_one, iso, idle_db, old_installation, new_installation, queued_db,
  ubuntu, registry, engine, login, signed_in,
}
use helboot.Api.Respond.{Response, done, failed}
use helboot.Api.Access.{HttpRequest, post, passed, require}
use helboot.Api.Access.Gatekeeping.{Allowed, require_iff}
use helboot.Api.Installations.{
  queue_for, CreateRequest, handle_create_installation, handle_delete_installation,
}
use helboot.Api.Installations.Race.{both_queued}
use helboot.Api.Installations.Creation.{Queued, handle_create_installation-Queued}
use helboot.Api.Installations.Reachable.{none_yet, after, create, cancel, boot, steps-OneActive}
use helboot.Api.Setup.{SetupRequest, handle_setup_complete}
use helboot.Api.Setup.Once.{Completed, handle_setup_complete-Completed}
use helboot.Api.Users.{handle_update_user}
use helboot.Api.Users.History
use helboot.Api.Users.History.{UserSteps-Staffed}

abbrev want : CreateRequest
want = record { host_id = 1; profile_id = none }

abbrev waiting : Installation
waiting = record {
  id = 1;
  host_id = 1;
  profile_version_id = 1;
  status = install_waiting;
  started_at = none;
  finished_at = none;
  log = "";
  token = "t1";
  created_at = 0;
}

abbrev after_create : Db
after_create = (handle_create_installation idle_db root_user (some want) (some "t1") 5).1

created :
    handle_create_installation idle_db root_user (some want) (some "t1") 5
    ≡ (done 201 waiting, after_create)
unfolding handle_create_installation host_by_id helboot.Store.Profiles.profile_by_id
    helboot.Api.Installations.queue_for active_installation_for_host
    helboot.Store.Profiles.profile_version_number helboot.Api.Installations.version_to_install
    helboot.Store.Installations.create_installation helboot.Time.format_time
created = refl

handle_create_installation-Queued_example : Queued idle_db want 201 waiting after_create
handle_create_installation-Queued_example =
    handle_create_installation-Queued idle_db after_create root_user want (some "t1") 5 201 waiting
      created

second_refused :
    handle_create_installation after_create root_user (some want) (some "t2") 6
    ≡ (failed 409 "installation.already_active", after_create)
unfolding handle_create_installation host_by_id helboot.Store.Profiles.profile_by_id
    helboot.Api.Installations.queue_for active_installation_for_host
    helboot.Store.Profiles.profile_version_number helboot.Api.Installations.version_to_install
    helboot.Store.Installations.create_installation helboot.Api.Respond.audit
second_refused = refl

idle_db-OneActive : OneActive idle_db
idle_db-OneActive = record { at_host = λ host. omega arith }

-- An unknown machine asks for its script.
abbrev after_boot : Db
after_boot =
    (handle_script engine after_create registry "http://b" "02-00-00-00-00-09" "x86_64" "efi" 6).2

steps-OneActive_example : OneActive (handle_delete_installation after_boot root_user (some 1)).1
steps-OneActive_example =
    steps-OneActive engine (λ _. "now")
      (after
        (after (after none_yet (create root_user (some want) (some "t1") 5))
          (boot registry "http://b" "02-00-00-00-00-09" "x86_64" "efi" 6))
        (cancel root_user (some 1)))
      idle_db-OneActive

other_mac : pc.mac ≢ "02:00:00:00:00:09"
other_mac e = let same = (String_eq.equals_iff pc.mac "02:00:00:00:00:09").1 e in ground arith

discover_host-Recorded_example :
    (host_by_mac (discover_host idle_db "02:00:00:00:00:09" "x86_64" "efi" 6).1 "02:00:00:00:00:09"
      ≡ ok (discover_host idle_db "02:00:00:00:00:09" "x86_64" "efi" 6).0)
    × ((discover_host idle_db "02:00:00:00:00:09" "x86_64" "efi" 6).0.status ≡ discovered)
    × ((discover_host idle_db "02:00:00:00:00:09" "x86_64" "efi" 6).0.profile_id ≡ none)
    × (host_by_mac (discover_host idle_db "02:00:00:00:00:09" "x86_64" "efi" 6).1 pc.mac
        ≡ host_by_mac idle_db pc.mac)
    × ((discover_host idle_db "02:00:00:00:00:09" "x86_64" "efi" 6).1.installations ≡ [])
unfolding host_by_mac
discover_host-Recorded_example =
    discover_host-Recorded idle_db "02:00:00:00:00:09" "x86_64" "efi" 6 pc.mac refl other_mac

abbrev context : InstallContext
context = record {
  host = pc;
  install = new_installation;
  version = version_one;
  profile = desktop;
  iso = iso;
  manifest = ubuntu;
}

context_by_token-other_example :
    (context_by_token queued_db registry "t1" ≡ resolved context)
    × (new_installation ≢ old_installation)
    × (new_installation.host_id ≡ old_installation.host_id)
    × (is_active new_installation.status ≡ true)
unfolding installation_by_token is_active context_by_token host_by_id
    helboot.Boot.Context.load_install_context active_installation_for_host
    helboot.Store.Profiles.profile_version_by_id helboot.Store.Profiles.profile_by_id
    helboot.Store.Isos.iso_by_id
context_by_token-other_example =
    context_by_token-other queued_db registry "t1" old_installation pc context refl refl refl refl

handle_report-Finished_example :
    (active_installation_for_host queued_db 1 ≡ ok new_installation)
    × ((handle_report (λ _. "now") queued_db registry "t1" "success" 9).0 ≡ 204)
    × Finished queued_db 2 install_success
        (log_line (λ _. "now") install_success 9)
        9
        (handle_report (λ _. "now") queued_db registry "t1" "success" 9).1
unfolding installation_by_token context_by_token host_by_id
    helboot.Boot.Context.load_install_context active_installation_for_host
    helboot.Store.Profiles.profile_version_by_id helboot.Store.Profiles.profile_by_id
    helboot.Store.Isos.iso_by_id helboot.Boot.Serve.report_status
handle_report-Finished_example =
    handle_report-Finished (λ _. "now") queued_db registry "t1" "success" 9 old_installation context
      install_success refl refl refl

abbrev created_status : ℕ
created_status = 201

abbrev wizard : SetupRequest
wizard = record {
  language = "en";
  username = "root";
  password = "0123456789";
  network_mode = "dhcp";
}

abbrev hash : String → Option String
hash p = some "h"

abbrev after_setup : Db
after_setup = (handle_setup_complete hash empty_db (some wizard) 5).1

handle_setup_complete-Completed_example :
    (created_status ≡ 201)
    × (setup_completed empty_db ≡ false)
    × (3 ≤ byte_len wizard.username)
    × (10 ≤ byte_len wizard.password)
    × Completed empty_db after_setup
    × ((again : Option SetupRequest) (later : Time)
        → handle_setup_complete hash after_setup again later
          ≡ (failed 409 "setup.already_completed", after_setup))
unfolding handle_setup_complete setup_completed helboot.Store.Settings.get_setting byte_len
    helboot.Store.Users.create_user helboot.Model.role_valid
handle_setup_complete-Completed_example =
    handle_setup_complete-Completed hash empty_db after_setup wizard 5 created_status refl

idle_db-Staffed : Staffed idle_db
unfolding helboot.Store.Users.count_admins
idle_db-Staffed = record {
  single = λ k. ground arith;
  given = (omega arith, tt);
  staffed = omega arith;
}

UserSteps-Staffed_example :
    Staffed (handle_update_user idle_db root_user (some 1) (some operator)).1
UserSteps-Staffed_example =
    UserSteps-Staffed hash (λ p h. some true)
      (History.next History.none_yet (History.set_role root_user (some 1) (some operator)))
      idle_db-Staffed

last_admin_stays :
    handle_update_user idle_db root_user (some 1) (some operator)
    ≡ (failed 409 "user.last_admin", idle_db)
unfolding handle_update_user helboot.Store.Users.user_by_id helboot.Model.role_valid
    helboot.Store.Users.count_admins
last_admin_stays = refl

abbrev cancel_request : HttpRequest
cancel_request = record { method = post; cookie = some "c"; csrf_header = "x" }

require_iff_example :
    (require signed_in operator cancel_request 7 ≡ passed root_user login)
    ↔ Allowed signed_in operator cancel_request 7 root_user login
require_iff_example = require_iff signed_in operator cancel_request 7 root_user login

-- The second request was checked before the first one inserted its row.
abbrev after_second : Db
after_second =
    (queue_for after_create root_user want pc desktop (some "t2") 6
      (active_installation_for_host idle_db 1)).1

both_queued_example : count_if (active_of 1) after_second.installations ≡ 2
unfolding active_installation_for_host queue_for helboot.Store.Profiles.profile_version_number
    helboot.Api.Installations.version_to_install helboot.Store.Installations.create_installation
    helboot.Time.format_time handle_create_installation helboot.Api.Respond.audit host_by_id
    helboot.Store.Profiles.profile_by_id
both_queued_example =
    both_queued idle_db after_create after_second root_user root_user want want pc desktop desktop
      (some "t1") (some "t2") 5 6 201 201 waiting (record waiting { id = 2; token = "t2" }) refl
      refl refl
