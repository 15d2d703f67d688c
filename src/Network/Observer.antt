-- ===== src/Network/Observer.antt =====
-- The observer of other DHCP servers: backend/internal/network/observer.go. `ip_text` is net.IP's
-- String; the mutex makes each method one step.
pub mod Seen
use helboot.Prelude.{
  ℕ, ◌-◌, String, Bool, true, false, not, ◌&&◌, ◌||◌, List, [], ◌∷◌, Option, none, some, ltb, ◌==◌,
  String_eq, if◌then◌else◌, keep,
}
use helboot.Time.{Time}
use helboot.Sorting.{sort_by}
use helboot.Network.Ip.{Ip, absent, v4, v6, is_unspecified}
use helboot.Network.Message.{OpCode, boot_request, MessageType, request, Request}

-- A server's address with the instant at which it was last seen.
abbrev pub ServerSighting : Type 0
ServerSighting = String × Time

pub record Observer : Type 0 where
  pub self_ip : String
  pub sightings : List ServerSighting

unfoldable pub new_observer : Observer
new_observer = record { self_ip = ""; sightings = [] }

-- o.sightings[ip] = now
unfoldable pub write_sighting : String → Time → List ServerSighting → List ServerSighting
write_sighting ip now rows = (ip, now) ∷ keep (λ r. not (r.0 == ip)) rows

module _ (ip_text : Ip → String) where
  unfoldable pub set_self_ip : Observer → Ip → Observer
  set_self_ip o absent = o
  set_self_ip o (v4 n) = record o { self_ip = ip_text (v4 n) }
  set_self_ip o (v6 n) = record o { self_ip = ip_text (v6 n) }

  unfoldable pub named_server : Ip → Option String
  named_server absent = none
  named_server (v4 n) = if is_unspecified (v4 n) then none else some (ip_text (v4 n))
  named_server (v6 n) = if is_unspecified (v6 n) then none else some (ip_text (v6 n))

  unfoldable pub server_of : OpCode → MessageType → Ip → Option String
  unfolding named_server
  server_of boot_request request server = named_server server
  server_of _ _ server = none

  -- The server whose offer the client of the message accepts.
  unfoldable pub accepted_server : Request → Option String
  unfolding server_of
  accepted_server req = server_of req.op_code req.message_type req.server_identifier

  unfoldable pub sight : Observer → Time → Option String → Observer
  unfolding write_sighting
  sight o now none = o
  sight o now (some ip) =
      if ip == o.self_ip then o else record o { sightings = write_sighting ip now o.sightings }

  unfoldable pub observe : Observer → Request → Time → Observer
  unfolding sight accepted_server
  observe o req now = sight o now (accepted_server req)

-- Sightings(window): what it returns, and the observer that is left. An instant before the clock's
-- zero is none that a sighting has.
unfoldable pub recent : Observer → Time → ℕ → List ServerSighting
recent o now window = keep (λ r. not (ltb r.1 (now - window))) o.sightings

unfoldable pub sightings_within : Observer → Time → ℕ → List ServerSighting × Observer
unfolding recent
sightings_within o now window =
    (sort_by (λ r. r.0) (recent o now window), record o { sightings = recent o now window })
