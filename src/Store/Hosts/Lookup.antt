-- ===== src/Store/Hosts/Lookup.antt =====
-- What a search by identifier finds: backend/internal/store/hosts.go.
use helboot.Prelude.{ℕ, ◌≡◌, arith, ◌==◌, ℕ_eq, first_holds}
use helboot.Model.{Host}
use helboot.Store.Db.{Db, ok}
use helboot.Store.Hosts.{host_by_id}

pub find_host : (db : Db) (id : ℕ) (h : Host) → host_by_id db id ≡ ok h → h.id ≡ id
unfolding host_by_id
find_host db id h e =
    let found = first_holds (λ k. k.id == id) db.hosts h in
    let same = (ℕ_eq.equals_iff h.id id).0 in ground arith
