-- ===== src/Cmd/Services.antt =====
-- The boot-network services of a start: backend/cmd/helboot/services.go. net.ParseIP, the addresses of
-- the interfaces and the URL of the boot script are arguments; a service that runs is its
-- configuration.
pub mod Started
mod Examples
use Prim.Native.Char.{Char, code}
use helboot.Prelude.{
  ◌%◌, ◌^◌, ◌-◌, ltb, ℕ, zero, suc, ◌*◌, ◌/◌, ◌^◌, String, Bool, true, false, not, ◌&&◌, List, [],
  ◌∷◌, ◌++◌, Option, none, some, nat_eq, leb, ltb, ◌==◌, String_eq, ℕ_eq, if◌then◌else◌, trim_space,
}
use helboot.Time.{Time}
use helboot.Strconv.{atoi_or_zero}
use helboot.Provider.Value.{ℤ, pos, negsuc}
use helboot.Store.Db.{Db}
use helboot.Store.Leases.{Lease}
use helboot.Store.Settings.{setting_network_mode, get_setting, setup_completed}
use helboot.Network.Ip.{Ip, absent, v4, v6}
use helboot.Network.LeasePool.{LeasePool, NewResult, ok, err}
use helboot.Network.Pxe.{BootConfig}
use helboot.Network.DhcpServer.{DhcpConfig}
use helboot.Api.NetworkSettings.{
  setting_text, setting_server_ip, setting_dhcp_start, setting_dhcp_end, setting_dhcp_mask,
  setting_dhcp_gateway, setting_dhcp_dns, setting_dhcp_lease_min,
}
use helboot.Cmd.LeaseRestore.{start_pool}

pub data Service : Type 0 where
  tftp : Service
  proxy_dhcp : BootConfig → Service
  dhcp_server : DhcpConfig → LeasePool → Service
  -- The lease time is negative, by so many nanoseconds; the pool is given with none.
  dhcp_server_expiring : ℕ → DhcpConfig → LeasePool → Service

-- getSetting
unfoldable pub setting : Db → String → String
unfolding setting_text
setting db key = setting_text (get_setting db key)

-- ip.To4()
unfoldable pub to4 : Ip → Ip
to4 (v4 n) = v4 n
to4 _ = absent

-- ip.IsGlobalUnicast() on IPv4: not the broadcast address, unspecified, loopback, multicast or
-- link-local.
unfoldable pub is_global_unicast : ℕ → Bool
is_global_unicast n =
    not (n == 0xffffffff)
    && not (n == 0)
    && not (n / 2 ^ 24 == 127)
    && not (n / 2 ^ 28 == 14)
    && not (n / 2 ^ 16 == 0xa9fe)

-- The loop over the addresses of the interfaces.
unfoldable pub first_global : List Ip → Ip
unfolding is_global_unicast
first_global [] = absent
first_global (v4 n ∷ ips) =
    let rest = first_global ips in if is_global_unicast n then v4 n else rest
first_global (_ ∷ ips) = first_global ips

unfoldable pub or_first_global : Ip → List Ip → Ip
unfolding first_global to4
or_first_global absent addrs = first_global addrs
or_first_global (v4 n) addrs = to4 (v4 n)
or_first_global (v6 n) addrs = to4 (v6 n)

add_to_field : Char → List String → List String
add_to_field c [] = String.◌∷◌ c "" ∷ []
add_to_field c (w ∷ ws) = String.◌∷◌ c w ∷ ws

-- strings.Split(s, ",")
comma_fields : String → List String
unfolding add_to_field
comma_fields String.[] = "" ∷ []
comma_fields (String.◌∷◌ c s) =
    let rest = comma_fields s in if nat_eq (code c) b',' then "" ∷ rest else add_to_field c rest

-- Minutes that are not positive count as an hour.
unfoldable pub lease_minutes : ℤ → ℕ
lease_minutes (pos zero) = 60
lease_minutes (pos (suc n)) = suc n
lease_minutes (negsuc n) = 60

-- A minute in nanoseconds.
abbrev pub minute : ℕ
minute = 60000000000

-- A time.Duration: an int64.
pub data Duration : Type 0 where
  nanoseconds : ℕ → Duration
  negative : ℕ → Duration

unfoldable pub int64_duration : ℕ → Duration
int64_duration n =
    let w = n % 2 ^ 64 in if ltb w (2 ^ 63) then nanoseconds w else negative (2 ^ 64 - w)

-- time.Duration(leaseMinutes) * time.Minute
unfoldable pub lease_time : ℤ → Duration
unfolding lease_minutes int64_duration
lease_time minutes = int64_duration (lease_minutes minutes * minute)

unfoldable pub subnet_mask : Ip → ℕ
subnet_mask (v4 n) = n
subnet_mask _ = 0xffffff00

abbrev with_ip : Ip → List Ip → List Ip
with_ip absent ips = ips
with_ip ip ips = ip ∷ ips

module _ (parse_ip : String → Ip) where
  -- detectServerIP
  unfoldable pub detect_server_ip : String → List Ip → Ip
  unfolding or_first_global
  detect_server_ip configured addrs = or_first_global (parse_ip configured) addrs

  unfoldable pub parse_all : List String → List Ip
  unfolding trim_space
  parse_all [] = []
  parse_all (s ∷ ss) = with_ip (parse_ip (trim_space s)) (parse_all ss)

  unfoldable pub dhcp_config : Db → BootConfig → DhcpConfig
  unfolding setting subnet_mask parse_all comma_fields
  dhcp_config db boot = record {
    boot = boot;
    subnet_mask = subnet_mask (parse_ip (setting db setting_dhcp_mask));
    gateway = parse_ip (setting db setting_dhcp_gateway);
    dns = parse_all (comma_fields (setting db setting_dhcp_dns));
  }

  unfoldable pub with_pool :
      (DhcpConfig → LeasePool → Service) → Db → BootConfig → NewResult → List Service
  unfolding dhcp_config
  with_pool server db boot (err e) = []
  with_pool server db boot (ok pool) = server (dhcp_config db boot) pool ∷ []

  unfoldable pub with_lease_time :
      Db → List Lease → BootConfig → Time → Ip → Ip → Duration → List Service
  unfolding with_pool
  with_lease_time db leases boot now start end (nanoseconds d) =
      with_pool dhcp_server db boot (start_pool start end d leases now)
  with_lease_time db leases boot now start end (negative d) =
      with_pool (dhcp_server_expiring d) db boot (start_pool start end 0 leases now)

  unfoldable pub with_range : Db → List Lease → BootConfig → Time → Ip → Ip → List Service
  unfolding with_lease_time setting lease_time
  with_range db leases boot now absent end = []
  with_range db leases boot now start absent = []
  with_range db leases boot now start end =
      with_lease_time db leases boot now start end
        (lease_time (atoi_or_zero (setting db setting_dhcp_lease_min)))

  -- buildDHCPServer: no service, or one.
  unfoldable pub build_dhcp_server : Db → List Lease → BootConfig → Time → List Service
  unfolding with_range setting
  build_dhcp_server db leases boot now =
      with_range db leases boot now (parse_ip (setting db setting_dhcp_start))
        (parse_ip (setting db setting_dhcp_end))

  unfoldable pub services_at : (Ip → String) → Db → List Lease → Time → Ip → List Service
  unfolding build_dhcp_server setting
  services_at script_url db leases now absent = []
  services_at script_url db leases now ip =
      let boot : BootConfig = record { server_ip = ip; script_url = script_url ip } in
      tftp
      ∷ (if setting db setting_network_mode == "dhcp"
          then build_dhcp_server db leases boot now
          else proxy_dhcp boot ∷ [])

  -- buildNetworkServices
  unfoldable pub build_network_services :
      (Ip → String) → Db → List Lease → List Ip → Time → List Service
  unfolding services_at detect_server_ip setting
  build_network_services script_url db leases addrs now =
      if setup_completed db
      then services_at script_url db leases now
          (detect_server_ip (setting db setting_server_ip) addrs)
      else []
