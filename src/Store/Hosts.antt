-- ===== src/Store/Hosts.antt =====
-- The table hosts: backend/internal/store/hosts.go. The tags are kept as the list that their JSON
-- text spells.
pub mod Lookup
use helboot.Prelude.{
  ℕ, ◌+◌, String, Bool, true, not, ◌&&◌, ◌||◌, List, ◌∷◌, Option, none, some, ◌==◌, ℕ_eq, String_eq,
  if◌then◌else◌, first, keep,
}
use helboot.Time.{Time, format_time}
use helboot.Model.{Host, Profile, Installation}
use helboot.Store.Db.{Db, Result, ok, err, not_found, constraint, or_not_found, exists, change}

-- CHECK (firmware IN ('', 'bios', 'uefi')), REFERENCES profiles (profile_id).
unfoldable pub firmware_valid : String → Bool
firmware_valid f = f == "" || f == "bios" || f == "uefi"

unfoldable pub profile_known : Db → Option ℕ → Bool
profile_known db none = true
profile_known db (some id) = exists (λ p. p.id == id) db.profiles

unfoldable pub host_by_id : Db → ℕ → Result Host
host_by_id db id = or_not_found (first (λ h. h.id == id) db.hosts)

unfoldable pub host_by_mac : Db → String → Result Host
host_by_mac db mac = or_not_found (first (λ h. h.mac == mac) db.hosts)

-- UNIQUE (mac)
unfoldable pub create_host : Db → Host → Time → Result (Host × Db)
unfolding firmware_valid profile_known
create_host db h now =
    let id = db.last_host + 1 in
    let row = record h { id = id; created_at = format_time now; updated_at = format_time now } in
    if exists (λ k. k.mac == h.mac) db.hosts
      || not (firmware_valid h.firmware && profile_known db h.profile_id)
    then err constraint
    else ok (row, record db { hosts = row ∷ db.hosts; last_host = id })

-- The identifier and the creation time stay.
unfoldable pub update_host : Db → Host → Time → Result (Host × Db)
unfolding firmware_valid profile_known
update_host db h now = elim (first (λ k. k.id == h.id) db.hosts) [
  | none ↦ err not_found
  | some old ↦
      let row = record h { created_at = old.created_at; updated_at = format_time now } in
      if exists (λ k. k.mac == h.mac && not (k.id == h.id)) db.hosts
        || not (firmware_valid h.firmware && profile_known db h.profile_id)
      then err constraint
      else ok (row, record db { hosts = change (λ k. k.id == h.id) (λ _. row) db.hosts })
]

-- installations … ON DELETE CASCADE
unfoldable pub delete_host : Db → ℕ → Result Db
delete_host db id =
    if exists (λ h. h.id == id) db.hosts
    then ok (record db {
      hosts = keep (λ h. not (h.id == id)) db.hosts;
      installations = keep (λ i. not (i.host_id == id)) db.installations;
    })
    else err not_found
