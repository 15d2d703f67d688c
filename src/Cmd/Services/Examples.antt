-- ===== src/Cmd/Services/Examples.antt =====
-- Starts after a configuration was saved: backend/cmd/helboot/services.go.
use helboot.Prelude.{
  arith, ◌*◌, ◌<◌, ◌≤◌, String, ◌≡◌, refl, ◌⊎◌, [], ◌∷◌, some, ◌==◌, String_eq, if◌then◌else◌,
}
use helboot.Provider.Value.{pos}
use helboot.Store.Db.{Db, empty_db}
use helboot.Model.{User, admin}
use helboot.Network.Ip.{Ip, absent, v4}
use helboot.Network.LeasePool.{LeasePool, ok}
use helboot.Network.Pxe.{BootConfig}
use helboot.Api.Respond.{done}
use helboot.Api.NetworkSettings.{NetworkConfig, handle_put_network_config}
use helboot.Cmd.LeaseRestore.{start_pool}
use helboot.Cmd.Services.{tftp, dhcp_server, lease_minutes, minute, build_network_services}
use helboot.Cmd.Services.Started.{configured, saved_range_started}

abbrev caller : User
caller = record {
  id = 1;
  username = "root";
  password_hash = "h";
  role = admin;
  locale = "en";
  created_at = 0;
}

abbrev parse_ip : String → Ip
parse_ip s =
    if s == "10.0.0.5" then v4 0x0a000005 else if s == "10.0.0.9" then v4 0x0a000009 else absent

-- The range ends before it begins.
abbrev reversed : NetworkConfig
reversed = record {
  mode = "dhcp";
  server_ip = "10.0.0.5";
  range_start = "10.0.0.9";
  range_end = "10.0.0.5";
  subnet_mask = "";
  gateway = "";
  dns = "";
  lease_minutes = pos 90;
}

abbrev set_up : Db
set_up = record empty_db { settings = ("setup.completed", "true") ∷ [] }

abbrev boot : BootConfig
boot = record { server_ip = v4 0x0a000005; script_url = "http://10.0.0.5/boot/ipxe" }

abbrev saved : Db
saved = (handle_put_network_config parse_ip set_up caller (some reversed)).1

saved_range_started_example :
    ((handle_put_network_config parse_ip set_up caller (some reversed)).0 ≡ done 200 tt)
    × (((0x0a000005 < 0x0a000009)
          × (build_network_services parse_ip (λ ip. "http://10.0.0.5/boot/ipxe") saved [] [] 0
              ≡ tftp ∷ []))
        ⊎ ((0x0a000009 ≤ 0x0a000005)
            × ((p : LeasePool) × (start_pool
                    (v4 0x0a000009)
                    (v4 0x0a000005)
                    (lease_minutes (pos 90) * minute)
                    []
                    0
                  ≡ ok p)
                × (build_network_services parse_ip (λ ip. "http://10.0.0.5/boot/ipxe") saved [] [] 0
                    ≡ tftp ∷ dhcp_server (configured parse_ip reversed boot) p ∷ []))))
unfolding helboot.Api.NetworkSettings.config_problem helboot.Provider.Value.int_lt
    helboot.Store.Settings.setup_completed helboot.Store.Settings.get_setting
    helboot.Cmd.Services.detect_server_ip lease_minutes
saved_range_started_example =
    saved_range_started parse_ip (λ ip. "http://10.0.0.5/boot/ipxe") set_up caller reversed [] [] 0
      0x0a000005 0x0a000009 0x0a000005 refl refl refl refl refl refl (omega arith)
