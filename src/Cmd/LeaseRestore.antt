-- ===== src/Cmd/LeaseRestore.antt =====
-- The lease pool at start-up: buildDHCPServer of backend/cmd/helboot/services.go.
pub mod Restart
pub mod LostLease
pub mod OneHolder
use helboot.Prelude.{ℕ, List, [], ◌∷◌, some}
use helboot.Time.{Time}
use helboot.Store.Leases.{Lease, active_leases}
use helboot.Network.Ip.{Ip, v4}
use helboot.Network.LeasePool.{LeasePool, NewResult, ok, err, new_lease_pool, restore}

-- The loop over the persisted leases. An address text is kept as the number that it spells.
unfoldable pub restore_all : LeasePool → List Lease → LeasePool
restore_all p [] = p
restore_all p (r ∷ rows) = restore_all (restore p r.mac (v4 r.ip) r.expires_at) rows

-- The new pool writes through to the table that it reads its leases from.
unfoldable pub start_pool : Ip → Ip → ℕ → List Lease → Time → NewResult
start_pool start end duration rows now = elim (new_lease_pool start end duration (some rows)) [
  | err e ↦ err e
  | ok p ↦ ok (restore_all p (active_leases now rows))
]
