-- ===== src/Api/NetworkSettings.antt =====
-- The network configuration and its warnings: backend/internal/api/handlers_network.go. net.ParseIP is
-- the argument `parse_ip`, which gives `absent` for nil.
pub mod Saved
pub mod Warned
mod Examples
use helboot.Prelude.{
  ℕ, String, Bool, true, false, not, ◌&&◌, ◌||◌, List, [], ◌∷◌, Option, none, some, leb, length,
  ◌==◌, String_eq, if◌then◌else◌,
}
use helboot.Time.{Time}
use helboot.Model.{User}
use helboot.Strconv.{itoa, atoi_or_zero}
use helboot.Provider.Value.{ℤ, pos, int_lt}
use helboot.Store.Db.{Db, Result, ok, err, StoreError, not_found}
use helboot.Store.Settings.{setting_network_mode, get_setting, set_setting}
use helboot.Network.Ip.{Ip, absent}
use helboot.Network.Observer.{Observer, ServerSighting, sightings_within}
use helboot.Api.Respond.{
  Response, done, failed, Handled, decode_json, unless, audit, internal_error,
}

pub record NetworkConfig : Type 0 where
  pub mode : String
  pub server_ip : String
  pub range_start : String
  pub range_end : String
  pub subnet_mask : String
  pub gateway : String
  pub dns : String
  pub lease_minutes : ℤ

abbrev pub setting_server_ip : String
setting_server_ip = "network.server_ip"

abbrev pub setting_dhcp_start : String
setting_dhcp_start = "network.dhcp.range_start"

abbrev pub setting_dhcp_end : String
setting_dhcp_end = "network.dhcp.range_end"

abbrev pub setting_dhcp_mask : String
setting_dhcp_mask = "network.dhcp.subnet_mask"

abbrev pub setting_dhcp_gateway : String
setting_dhcp_gateway = "network.dhcp.gateway"

abbrev pub setting_dhcp_dns : String
setting_dhcp_dns = "network.dhcp.dns"

abbrev pub setting_dhcp_lease_min : String
setting_dhcp_lease_min = "network.dhcp.lease_minutes"

-- A key with no value reads as the empty text.
unfoldable pub setting_text : Result String → String
setting_text (ok v) = v
setting_text (err e) = ""

-- readNetworkConfig, where a statement fails by a missing key alone.
unfoldable pub read_network_config : Db → NetworkConfig
unfolding setting_text
read_network_config db = record {
  mode = setting_text (get_setting db setting_network_mode);
  server_ip = setting_text (get_setting db setting_server_ip);
  range_start = setting_text (get_setting db setting_dhcp_start);
  range_end = setting_text (get_setting db setting_dhcp_end);
  subnet_mask = setting_text (get_setting db setting_dhcp_mask);
  gateway = setting_text (get_setting db setting_dhcp_gateway);
  dns = setting_text (get_setting db setting_dhcp_dns);
  lease_minutes = atoi_or_zero (setting_text (get_setting db setting_dhcp_lease_min));
}

unfoldable pub handle_get_network_config : Db → Handled NetworkConfig
unfolding read_network_config
handle_get_network_config db = (done 200 (read_network_config db), db)

-- The map `values`.
unfoldable pub config_values : NetworkConfig → List (String × String)
config_values cfg =
    (setting_network_mode, cfg.mode)
    ∷ (setting_server_ip, cfg.server_ip)
    ∷ (setting_dhcp_start, cfg.range_start)
    ∷ (setting_dhcp_end, cfg.range_end)
    ∷ (setting_dhcp_mask, cfg.subnet_mask)
    ∷ (setting_dhcp_gateway, cfg.gateway)
    ∷ (setting_dhcp_dns, cfg.dns)
    ∷ (setting_dhcp_lease_min, itoa cfg.lease_minutes)
    ∷ []

-- The loop over a map, in the order in which it gives the keys.
unfoldable pub write_values : Db → List (String × String) → Db
write_values db [] = db
write_values db ((key, value) ∷ values) = write_values (set_setting db key value) values

abbrev pub is_nil : Ip → Bool
is_nil absent = true
is_nil _ = false

module _ (parse_ip : String → Ip) where
  -- ip != "" && net.ParseIP(ip) == nil
  unfoldable pub invalid_ip : String → Bool
  invalid_ip ip = not (ip == "") && is_nil (parse_ip ip)

  -- The error code of the checks for the mode dhcp, if any.
  unfoldable pub range_problem : NetworkConfig → Option String
  unfolding invalid_ip
  range_problem cfg =
      if is_nil (parse_ip cfg.range_start) || is_nil (parse_ip cfg.range_end)
      then some "network.invalid_range"
      else if invalid_ip cfg.subnet_mask
      then some "network.invalid_ip"
      else if int_lt cfg.lease_minutes (pos 0)
      then some "network.invalid_lease"
      else none

  unfoldable pub config_problem : NetworkConfig → Option String
  unfolding invalid_ip range_problem
  config_problem cfg =
      if not (cfg.mode == "proxy_dhcp") && not (cfg.mode == "dhcp")
      then some "network.invalid_mode"
      else if invalid_ip cfg.server_ip || invalid_ip cfg.gateway
      then some "network.invalid_ip"
      else if cfg.mode == "dhcp"
      then range_problem cfg
      else none

  unfoldable pub save_config : Db → User → NetworkConfig → Option String → Handled (Unit {0})
  unfolding config_values write_values audit
  save_config db caller cfg (some code) = (failed 400 code, db)
  save_config db caller cfg none = (
    done 200 tt,
    audit (write_values db (config_values cfg)) (some caller) "network.update_config" "settings" 0,
  )

  unfoldable pub handle_put_network_config : Db → User → Option NetworkConfig → Handled (Unit {0})
  unfolding save_config config_problem
  handle_put_network_config db caller body =
      decode_json body db λ cfg. save_config db caller cfg (config_problem cfg)

-- 30 minutes, in nanoseconds.
abbrev pub observation_window : ℕ
observation_window = 1800000000000

pub data NetworkWarning : Type 0 where
  rogue_dhcp_server multiple_dhcp_servers : NetworkWarning

unfoldable pub warnings_for : String → ℕ → List NetworkWarning
warnings_for mode servers =
    if mode == "dhcp"
    then (if leb 1 servers then rogue_dhcp_server ∷ [] else [])
    else if leb 2 servers
    then multiple_dhcp_servers ∷ []
    else []

pub record NetworkStatus : Type 0 where
  pub mode : String
  pub dhcp_servers : List ServerSighting
  pub warnings : List NetworkWarning

unfoldable pub report_status : String → List ServerSighting → Response NetworkStatus
unfolding warnings_for
report_status mode servers =
    done 200 (record {
      mode = mode;
      dhcp_servers = servers;
      warnings = warnings_for mode (length servers);
    })

-- handleNetworkStatus: `observer` is none where there is no observer.
unfoldable pub handle_network_status :
    Db → Option Observer → Time → Response NetworkStatus × Option Observer
unfolding report_status setting_text
handle_network_status db none now =
    (report_status (setting_text (get_setting db setting_network_mode)) [], none)
handle_network_status db (some o) now =
    let (servers, o') = sightings_within o now observation_window in
    (report_status (setting_text (get_setting db setting_network_mode)) servers, some o')
