-- ===== src/Store/Leases.antt =====
-- The table dhcp_leases: backend/internal/store/leases.go.
pub mod Unique
use helboot.Prelude.{
  ℕ, String, Bool, false, not, ◌&&◌, ◌||◌, List, [], ◌∷◌, Option, none, some, ◌==◌, ℕ_eq, String_eq,
  if◌then◌else◌, keep, first,
}
use helboot.Time.{Time, after, format_time}

-- One persisted DHCP lease; the address text is kept as the number that it spells.
pub record Lease : Type 0 where
  pub mac : String
  pub ip : ℕ
  pub hostname : String
  pub expires_at : Time

-- UNIQUE (ip): some row of another MAC holds the address.
unfoldable pub ip_taken : List Lease → String → ℕ → Bool
ip_taken [] mac ip = false
ip_taken (r ∷ rows) mac ip = (r.ip == ip && not (r.mac == mac)) || ip_taken rows mac ip

-- The row for the MAC is written over, and a new one added where there is none.
unfoldable pub write_row : Lease → List Lease → List Lease
write_row l [] = l ∷ []
write_row l (r ∷ rows) = if r.mac == l.mac then l ∷ rows else r ∷ write_row l rows

-- INSERT … ON CONFLICT (mac) DO UPDATE; `none` is the error of the UNIQUE column `ip`.
unfoldable pub upsert_lease : Lease → List Lease → Option (List Lease)
upsert_lease l rows =
    if ip_taken rows l.mac l.ip
    then none
    else some (write_row (record l { expires_at = format_time l.expires_at }) rows)

-- WHERE expires_at > now
unfoldable pub active_leases : Time → List Lease → List Lease
active_leases now = keep (λ r. after r.expires_at (format_time now))

unfoldable pub lease_by_mac : String → List Lease → Option Lease
lease_by_mac mac = first (λ r. r.mac == mac)

unfoldable pub delete_lease : String → List Lease → List Lease
delete_lease mac = keep (λ r. not (r.mac == mac))
