-- ===== src/Api/NetworkSettings/Warned.antt =====
-- When the network status warns of another DHCP server: handleNetworkStatus of
-- backend/internal/api/handlers_network.go over backend/internal/network/observer.go.
use helboot.Prelude.{
  String, ◌≡◌, refl, ap, ◌∙◌, ◌⊎◌, inl, inr, List, [], ◌∷◌, Option, none, some, arith, length,
  String_eq,
}
use helboot.Time.{Time}
use helboot.Store.Db.{Db}
use helboot.Store.Settings.{get_setting, setting_network_mode}
use helboot.Network.Ip.{Ip}
use helboot.Network.Message.{Request}
use helboot.Network.Observer.{ServerSighting, sightings_within}
use helboot.Network.Observer.Seen.{
  row_of, observe_all, last_shown, at_instant, within, sightings_within-Seen,
}
use helboot.Api.Respond.{done}
use helboot.Api.NetworkSettings.{
  setting_text, observation_window, rogue_dhcp_server, warnings_for, NetworkStatus, report_status,
  handle_network_status,
}

module _ (ip_text : Ip → String) (self : String) (events : List (Request × Time)) (now : Time) where
  abbrev pub shown : String → Option Time
  shown ip = within ip_text now observation_window (last_shown ip_text self ip events)

  Found : List ServerSighting → Type 0
  Found report = ((ip : String) → row_of ip report ≡ at_instant ip_text ip (shown ip))

  Quiet-or-seen :
      (report : List ServerSighting)
      → Found report
      → (((ip : String) → shown ip ≡ none) × (warnings_for "dhcp" (length report) ≡ []))
        ⊎ (((ip : String) × (t : Time) × (shown ip ≡ some t))
            × (warnings_for "dhcp" (length report) ≡ rogue_dhcp_server ∷ []))
  unfolding Found warnings_for
  Quiet-or-seen [] h = inl ((λ ip. nothing ip (shown ip) (h ip)), refl)
    where
      nothing : (ip : String) (t : Option Time) → none ≡ at_instant ip_text ip t → t ≡ none
      nothing ip none e = refl
      nothing ip (some t) e = cc
  Quiet-or-seen ((ip, t) ∷ rows) h = inr (something (shown ip) refl (found ∙ h ip), ground arith)
    where
      found : some (ip, t) ≡ row_of ip ((ip, t) ∷ rows)
      found = rw ((String_eq.equals_iff ip ip).1 refl) refl

      something :
          (o : Option Time)
          → shown ip ≡ o
          → some (ip, t) ≡ at_instant ip_text ip o
          → (i : String) × (u : Time) × (shown i ≡ some u)
      something none k e = cc
      something (some u) k e = (ip, u, k)

  -- In the mode dhcp, the network status after any messages to an observer that has seen none is
  -- answered by 200, and either some server other than HELBOOT had its offer accepted within the
  -- last 30 minutes, and the status warns of a rogue server and of nothing else, or none had, and
  -- it warns of nothing.
  pub handle_network_status-warned :
      (db : Db)
      → setting_text (get_setting db setting_network_mode) ≡ "dhcp"
      → let o = observe_all ip_text (record { self_ip = self; sightings = [] }) events in
        (status : NetworkStatus) × ((handle_network_status db (some o) now).0 ≡ done 200 status)
        × ((((ip : String) → shown ip ≡ none) × (status.warnings ≡ []))
            ⊎ (((ip : String) × (t : Time) × (shown ip ≡ some t))
                × (status.warnings ≡ rogue_dhcp_server ∷ [])))
  unfolding handle_network_status report_status Found
  handle_network_status-warned db mode =
      let o = observe_all ip_text (record { self_ip = self; sightings = [] }) events in
      let report = (sightings_within o now observation_window).0 in
      let (sorted, rows) = sightings_within-Seen ip_text self events now observation_window in
      (
        record {
          mode = "dhcp";
          dhcp_servers = report;
          warnings = warnings_for "dhcp" (length report);
        },
        ap (λ m. report_status m report) mode,
        Quiet-or-seen report rows,
      )
