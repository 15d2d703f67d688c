-- ===== src/Cmd/Services/Started.antt =====
-- What a start runs after the configuration was saved: buildNetworkServices of
-- backend/cmd/helboot/services.go and handlePutNetworkConfig of
-- backend/internal/api/handlers_network.go.
use native.Mathlib.Decide.{dec_lt}
use helboot.Provider.Value.{ℤ}
use helboot.Prelude.{
  ◌%◌, ◌^◌, ◌⊎◌, inl, inr, ℕ, ◌*◌, ◌<◌, ◌≤◌, String, ◌≡◌, refl, ap, ◌∙◌, true, List, [], ◌∷◌, none,
  some, arith, ◌==◌, String_eq,
}
use helboot.Time.{Time}
use helboot.Model.{User}
use helboot.Store.Db.{Db}
use helboot.Store.Leases.{Lease, active_leases}
use helboot.Store.Settings.{setup_completed, setting_network_mode}
use helboot.Network.Ip.{Ip, v4, ip_to_uint}
use helboot.Network.LeasePool.{LeasePool, ok, err, start_after_end, new_lease_pool}
use helboot.Network.Pxe.{BootConfig}
use helboot.Network.DhcpServer.{DhcpConfig}
use helboot.Api.Respond.{done}
use helboot.Api.NetworkSettings.{
  NetworkConfig, read_network_config, config_problem, handle_put_network_config, setting_dhcp_end,
  setting_server_ip,
}
use helboot.Api.NetworkSettings.Saved.{handle_put_network_config-Written}
use helboot.Cmd.LeaseRestore.{start_pool, restore_all}
use helboot.Cmd.Services.{
  tftp, dhcp_server, setting, lease_minutes, minute, nanoseconds, int64_duration, lease_time,
  with_lease_time, subnet_mask, detect_server_ip, parse_all, comma_fields, dhcp_config, with_pool,
  with_range, build_dhcp_server, services_at, build_network_services,
}

module _ (parse_ip : String → Ip) (cfg : NetworkConfig) where
  -- The configuration of the DHCP server as the saved one spells it.
  pub configured : BootConfig → DhcpConfig
  configured boot = record {
    boot = boot;
    subnet_mask = subnet_mask (parse_ip cfg.subnet_mask);
    gateway = parse_ip cfg.gateway;
    dns = parse_all parse_ip (comma_fields cfg.dns);
  }

  module _ (db : Db) (read : read_network_config db ≡ cfg) where
    dhcp_config-configured : (boot : BootConfig) → dhcp_config parse_ip db boot ≡ configured boot
    unfolding dhcp_config configured read_network_config setting
    dhcp_config-configured boot =
        ap
          (λ (c : NetworkConfig). record {
            boot = boot;
            subnet_mask = subnet_mask (parse_ip c.subnet_mask);
            gateway = parse_ip c.gateway;
            dns = parse_all parse_ip (comma_fields c.dns);
          })
          read

    build_dhcp_server-range :
        (leases : List Lease) (boot : BootConfig) (now : Time) (s e : ℕ)
        → parse_ip cfg.range_start ≡ v4 s
        → parse_ip cfg.range_end ≡ v4 e
        → build_dhcp_server parse_ip db leases boot now
          ≡ with_lease_time parse_ip db leases boot now (v4 s) (v4 e) (lease_time cfg.lease_minutes)
    unfolding build_dhcp_server with_range lease_time read_network_config setting
    build_dhcp_server-range leases boot now s e p q =
        let end = parse_ip (setting db setting_dhcp_end) in
        ap
          (λ (c : NetworkConfig).
            with_range parse_ip db leases boot now (parse_ip c.range_start) end)
          read
        ∙ ap (λ ip. with_range parse_ip db leases boot now ip end) p
        ∙ ap
            (λ (c : NetworkConfig).
              with_range parse_ip db leases boot now (v4 s) (parse_ip c.range_end))
            read
        ∙ ap (λ ip. with_range parse_ip db leases boot now (v4 s) ip) q
        ∙ ap
            (λ (c : NetworkConfig).
              with_lease_time parse_ip db leases boot now (v4 s) (v4 e)
                (lease_time c.lease_minutes))
            read

    build_network_services-dhcp :
        (script_url : Ip → String) (leases : List Lease) (addrs : List Ip) (now : Time) (a : ℕ)
        → setup_completed db ≡ true
        → cfg.mode ≡ "dhcp"
        → detect_server_ip parse_ip cfg.server_ip addrs ≡ v4 a
        → build_network_services parse_ip script_url db leases addrs now
          ≡ tftp
            ∷ build_dhcp_server parse_ip db leases
                (record { server_ip = v4 a; script_url = script_url (v4 a) })
                now
    unfolding build_network_services services_at setting read_network_config
    build_network_services-dhcp script_url leases addrs now a completed mode found =
        let ip : detect_server_ip parse_ip (setting db setting_server_ip) addrs ≡ v4 a =
          ap (λ (c : NetworkConfig). detect_server_ip parse_ip c.server_ip addrs) read ∙ found in
        let stored_mode : (setting db setting_network_mode == "dhcp") ≡ true =
          ap (λ (c : NetworkConfig). c.mode == "dhcp") read
          ∙ (String_eq.equals_iff cfg.mode "dhcp").1 mode in
        rw (build_network_services, completed, ip, services_at, stored_mode) refl

start_pool-reversed :
    (s e duration : ℕ) (leases : List Lease) (now : Time)
    → e < s
    → start_pool (v4 s) (v4 e) duration leases now ≡ err start_after_end
unfolding start_pool new_lease_pool ip_to_uint
start_pool-reversed s e duration leases now h = ground arith

start_pool-ordered :
    (s e duration : ℕ) (leases : List Lease) (now : Time)
    → s ≤ e
    → (pool : LeasePool) × (start_pool (v4 s) (v4 e) duration leases now ≡ ok pool)
unfolding start_pool new_lease_pool ip_to_uint
start_pool-ordered s e duration leases now h = (
  restore_all
      (record {
        start = s;
        end = e;
        duration = duration;
        store = some leases;
        by_mac = λ _. none;
        by_ip = λ _. none;
      })
      (active_leases now leases),
  ground arith,
)

-- A lease time below 2 ^ 63 nanoseconds does not wrap.
lease_time_fits :
    (minutes : ℤ)
    → lease_minutes minutes * minute < 2 ^ 63
    → lease_time minutes ≡ nanoseconds (lease_minutes minutes * minute)
unfolding lease_time int64_duration
lease_time_fits minutes h = wrapped (lease_minutes minutes * minute) h
  where
    wrapped : (n : ℕ) → n < 2 ^ 63 → int64_duration n ≡ nanoseconds n
    wrapped n k = let small : n % 2 ^ 64 ≡ n = omega arith in rw small (ground arith)

-- Saving a configuration for the mode dhcp that has no problem is answered by 200. Where the
-- first-run wizard was completed and HELBOOT has an address, the range is of IPv4, and the lease
-- time is below 2 ^ 63 nanoseconds, the next start runs TFTP and the DHCP server, with the range,
-- the lease time and the options of that configuration and the leases of the table, if the range
-- does not end before it begins; if it does, TFTP alone.
pub saved_range_started :
    (parse_ip : String → Ip) (script_url : Ip → String) (db : Db) (caller : User)
    (cfg : NetworkConfig) (leases : List Lease) (addrs : List Ip) (now : Time) (a s e : ℕ)
    → config_problem parse_ip cfg ≡ none
    → cfg.mode ≡ "dhcp"
    → setup_completed db ≡ true
    → detect_server_ip parse_ip cfg.server_ip addrs ≡ v4 a
    → parse_ip cfg.range_start ≡ v4 s
    → parse_ip cfg.range_end ≡ v4 e
    → lease_minutes cfg.lease_minutes * minute < 2 ^ 63
    → let saved = handle_put_network_config parse_ip db caller (some cfg) in
      let started = build_network_services parse_ip script_url saved.1 leases addrs now in
      let pool = start_pool (v4 s) (v4 e) (lease_minutes cfg.lease_minutes * minute) leases now in
      let boot : BootConfig = record { server_ip = v4 a; script_url = script_url (v4 a) } in
      (saved.0 ≡ done 200 tt)
      × (((e < s) × (started ≡ tftp ∷ []))
          ⊎ ((s ≤ e)
              × ((p : LeasePool) × (pool ≡ ok p)
                  × (started ≡ tftp ∷ dhcp_server (configured parse_ip cfg boot) p ∷ []))))
unfolding with_pool with_lease_time
saved_range_started parse_ip script_url db caller cfg leases addrs now a s e fine mode completed
      found p q fits =
    let (answer, written) = handle_put_network_config-Written parse_ip db caller cfg fine in
    let db' = (handle_put_network_config parse_ip db caller (some cfg)).1 in
    let boot : BootConfig = record { server_ip = v4 a; script_url = script_url (v4 a) } in
    let duration = lease_minutes cfg.lease_minutes * minute in
    let started =
      build_network_services-dhcp parse_ip cfg db' written.read script_url leases addrs now a
        (written.setup ∙ completed) mode found
      ∙ ap (λ services. tftp ∷ services)
          (build_dhcp_server-range parse_ip cfg db' written.read leases boot now s e p q
            ∙ ap (with_lease_time parse_ip db' leases boot now (v4 s) (v4 e))
                (lease_time_fits cfg.lease_minutes fits)) in
    (
      answer,
      elim (dec_lt e s) [
        | yes h ↦ inl (
          h,
          started
              ∙ ap (λ r. tftp ∷ with_pool parse_ip dhcp_server db' boot r)
                  (start_pool-reversed s e duration leases now h),
        )
        | no h ↦
            let ordered : s ≤ e = omega arith in
            let (pool, made) = start_pool-ordered s e duration leases now ordered in
            inr (
              ordered,
              (
                pool,
                made,
                started
                    ∙ ap (λ r. tftp ∷ with_pool parse_ip dhcp_server db' boot r) made
                    ∙ ap (λ c. tftp ∷ dhcp_server c pool ∷ [])
                        (dhcp_config-configured parse_ip cfg db' written.read boot),
              ),
            )
      ],
    )
