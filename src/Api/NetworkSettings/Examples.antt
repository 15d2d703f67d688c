-- ===== src/Api/NetworkSettings/Examples.antt =====
-- A configuration that is saved, and servers that are seen:
-- backend/internal/api/handlers_network.go.
use helboot.Prelude.{
  ℕ_eq, String, ◌≡◌, refl, ◌⊎◌, false, List, [], ◌∷◌, none, some, ◌==◌, String_eq, if◌then◌else◌,
}
use helboot.Time.{Time}
use helboot.Provider.Value.{pos}
use helboot.Store.Db.{Db}
use helboot.Network.Ip.{Ip, absent, v4}
use helboot.Network.Message.{Request, boot_request, request}
use helboot.Network.Observer.{Observer, ServerSighting, sightings_within}
use helboot.Network.Observer.Seen.{
  row_of, observe_all, last_shown, at_instant, within, sightings_within-Seen,
}
use helboot.Sorting.Laws.{IsSorted}
use helboot.Api.Fixtures.{root_user, idle_db}
use helboot.Api.Respond.{done, failed}
use helboot.Api.NetworkSettings.Warned.{shown, handle_network_status-warned}
use helboot.Api.NetworkSettings.{
  NetworkStatus, rogue_dhcp_server, handle_network_status, NetworkConfig, config_problem,
  handle_put_network_config, handle_get_network_config,
}
use helboot.Api.NetworkSettings.Saved.{handle_put_network_config-Saved}

abbrev parse_ip : String → Ip
parse_ip s =
    if s == "10.0.0.5" then v4 0x0a000005 else if s == "10.0.0.9" then v4 0x0a000009 else absent

abbrev cfg : NetworkConfig
cfg = record {
  mode = "dhcp";
  server_ip = "";
  range_start = "10.0.0.5";
  range_end = "10.0.0.9";
  subnet_mask = "";
  gateway = "10.0.0.5";
  dns = "10.0.0.5, 10.0.0.9";
  lease_minutes = pos 90;
}

handle_put_network_config-Saved_example :
    ((code : String) × (config_problem parse_ip cfg ≡ some code)
      × (handle_put_network_config parse_ip idle_db root_user (some cfg)
          ≡ (failed 400 code, idle_db)))
    ⊎ ((db' : Db) × (config_problem parse_ip cfg ≡ none)
        × (handle_put_network_config parse_ip idle_db root_user (some cfg) ≡ (done 200 tt, db'))
        × (handle_get_network_config db' ≡ (done 200 cfg, db')))
handle_put_network_config-Saved_example =
    handle_put_network_config-Saved parse_ip idle_db root_user cfg

no_range : config_problem parse_ip (record cfg { range_end = "" }) ≡ some "network.invalid_range"
unfolding config_problem
no_range = refl

abbrev ip_text : Ip → String
ip_text (v4 n) = if n == 0x0a000001 then "10.0.0.1" else "10.0.0.2"
ip_text _ = ""

-- A client that accepts the offer of 10.0.0.1.
abbrev accepting : Request
accepting = record {
  op_code = boot_request;
  message_type = request;
  client_hw_addr = "aa";
  client_ip_addr = absent;
  requested_ip = absent;
  server_identifier = v4 0x0a000001;
  host_name = "";
  class_identifier = "";
  user_class = [];
  client_arch = [];
  is_broadcast = false;
}

abbrev events : List (Request × Time)
events = (accepting, 5) ∷ (record accepting { server_identifier = v4 0x0a000002 }, 6) ∷ []

abbrev observer : Observer
observer = observe_all ip_text (record { self_ip = "10.0.0.2"; sightings = [] }) events

sightings_within-Seen_example :
    IsSorted (λ (r : ServerSighting). r.0) (sightings_within observer 7 10).0
    × ((ip : String)
        → row_of ip (sightings_within observer 7 10).0
          ≡ at_instant ip_text ip (within ip_text 7 10 (last_shown ip_text "10.0.0.2" ip events)))
sightings_within-Seen_example = sightings_within-Seen ip_text "10.0.0.2" events 7 10

reported : (sightings_within observer 7 10).0 ≡ ("10.0.0.1", 5) ∷ []
unfolding sightings_within helboot.Sorting.sort_by helboot.Network.Observer.observe
    helboot.Network.Ip.is_unspecified
reported = refl

abbrev dhcp_db : Db
dhcp_db = record idle_db { settings = ("network.mode", "dhcp") ∷ [] }

handle_network_status-warned_example :
    (status : NetworkStatus) × ((handle_network_status dhcp_db (some observer) 10).0
      ≡ done 200 status)
    × ((((ip : String) → shown ip_text "10.0.0.2" events 10 ip ≡ none) × (status.warnings ≡ []))
        ⊎ (((ip : String) × (t : Time) × (shown ip_text "10.0.0.2" events 10 ip ≡ some t))
            × (status.warnings ≡ rogue_dhcp_server ∷ [])))
unfolding helboot.Api.NetworkSettings.setting_text helboot.Store.Settings.get_setting
handle_network_status-warned_example =
    handle_network_status-warned ip_text "10.0.0.2" events 10 dhcp_db refl
