-- ===== src/Boot/Discovery.antt =====
-- A machine's first request: discover and handleScript of backend/internal/boot/boot.go.
use helboot.Prelude.{
  ◌≡◌, ◌≢◌, refl, inl, inr, String, Bool, true, false, none, arith, ◌==◌, String_eq, lower_is,
  if◌then◌else◌,
}
use helboot.Time.{Time}
use helboot.Model.{Host, discovered}
use helboot.Store.Db.{Db, ok, err, not_found, exists, Result-cases, StoreError}
use helboot.Store.Db.Counting.{first_of_count}
use helboot.Store.Hosts.{firmware_valid, profile_known, host_by_mac, create_host}
use helboot.Boot.Serve.{firmware_param, new_host, discover_host}

firmware_param-valid : (s : String) → firmware_valid (firmware_param s) ≡ true
unfolding firmware_param firmware_valid
firmware_param-valid s = go (lower_is s "efi") (lower_is s "pcbios")
  where
    go : (b c : Bool) → firmware_valid (if b then "uefi" else if c then "bios" else "") ≡ true
    go true c = refl
    go false true = refl
    go false false = refl

create_host-accepted :
    (db : Db) (h : Host) (now : Time) (e : StoreError)
    → exists (λ k. k.mac == h.mac) db.hosts ≡ false
    → firmware_valid h.firmware ≡ true
    → h.profile_id ≡ none
    → ¬ create_host db h now ≡ err e
unfolding create_host profile_known
create_host-accepted db h now e unknown valid unassigned refused = ground arith

create_host_row :
    (db db' : Db) (h row : Host) (now : Time)
    → create_host db h now ≡ ok (row, db')
    → (host_by_mac db' h.mac ≡ ok row)
      × (row.status ≡ h.status)
      × (row.profile_id ≡ h.profile_id)
      × (db'.installations ≡ db.installations)
unfolding create_host host_by_mac
create_host_row db db' h row now e =
    let same = (String_eq.equals_iff h.mac h.mac).1 refl in ground arith

create_host-other :
    (db db' : Db) (h row : Host) (now : Time) (other : String)
    → create_host db h now ≡ ok (row, db')
    → other ≢ h.mac
    → host_by_mac db' other ≡ host_by_mac db other
unfolding create_host host_by_mac
create_host-other db db' h row now other e distinct =
    let same = (String_eq.equals_iff h.mac other).0 in ground arith

-- A machine whose MAC is not in the table of hosts is recorded, whatever architecture and firmware
-- its request names: its row is the one a search by its MAC finds from then on, with the status
-- `discovered` and no profile, a search by another MAC finds what it found before, and the
-- installations stay as they were.
pub discover_host-Recorded :
    (db : Db) (mac arch firmware : String) (now : Time) (other : String)
    → host_by_mac db mac ≡ err not_found
    → other ≢ mac
    → (host_by_mac (discover_host db mac arch firmware now).1 mac
        ≡ ok (discover_host db mac arch firmware now).0)
      × ((discover_host db mac arch firmware now).0.status ≡ discovered)
      × ((discover_host db mac arch firmware now).0.profile_id ≡ none)
      × (host_by_mac (discover_host db mac arch firmware now).1 other ≡ host_by_mac db other)
      × ((discover_host db mac arch firmware now).1.installations ≡ db.installations)
unfolding discover_host host_by_mac new_host
discover_host-Recorded db mac arch firmware now other unknown distinct =
    let host = new_host mac arch firmware in
    elim (Result-cases (create_host db host now)) [
      | inl (e, h) ↦ absurd (
          create_host-accepted db host now e
            (first_of_count (λ k. k.mac == mac) db.hosts (ground arith))
            (firmware_param-valid firmware) refl h)
      | inr ((row, db'), h) ↦
          let (found, status, profile, rest) = create_host_row db db' host row now h in
          rw (discover_host, h)
            (found, status, profile, create_host-other db db' host row now other h distinct, rest)
    ]
