-- ===== src/Cmd/Examples.antt =====
-- The theorems on the start of the server at a concrete table, and on the table itself.
use helboot.Prelude.{
  String, List, ◌*◌, ℕ_eq, ◌≡◌, inl, refl, true, [], ◌∷◌, none, some, arith, eq_iff, ◌==◌,
  String_eq, if◌then◌else◌,
}
use helboot.Time.{second, format_time}
use helboot.Store.Leases.{Lease, upsert_lease, lease_by_mac}
use helboot.Store.Leases.Unique.{Distinct}
use helboot.Network.Ip.{absent, v4}
use helboot.Network.LeasePool.{
  LeasePool, NewResult, ok, PoolLease, assigned, allocate, confirm, assign,
}
use helboot.Network.LeasePool.History.{allocates, step}
use helboot.Cmd.LeaseRestore.{start_pool}
use helboot.Cmd.LeaseRestore.OneHolder.{
  Reached, first_start, called, next_start, Reached-one_holder,
}
use helboot.Cmd.LeaseRestore.Restart.{start_pool_confirms}
use helboot.Cmd.LeaseRestore.LostLease.{reused_address_lost}

abbrev row : Lease
row = record { mac = "aa"; ip = 7; hostname = "pc"; expires_at = 9 * second }

abbrev other_row : Lease
other_row = record { mac = "bb"; ip = 8; hostname = "tv"; expires_at = 9 * second }

table-Distinct : Distinct (row ∷ other_row ∷ [])
table-Distinct =
    (((λ e. absurd (ground (arith, (eq_iff "aa" "bb").1 e)), λ e. omega arith), tt), (tt, tt))

abbrev renewed : Lease
renewed = record row { expires_at = 12 * second }

-- The table read at 2 s: both leases run and lie in the range from 7 to 9.
abbrev started : LeasePool
started = record {
  start = 7;
  end = 9;
  duration = 5 * second;
  store = some (row ∷ other_row ∷ []);
  by_mac = λ m.
      if "bb" == m
      then some (record { mac = "bb"; ip = 8; expires = 9 * second })
      else if "aa" == m
      then some (record { mac = "aa"; ip = 7; expires = 9 * second })
      else none;
  by_ip = λ n.
      if 8 == n
      then some (record { mac = "bb"; ip = 8; expires = 9 * second })
      else if 7 == n
      then some (record { mac = "aa"; ip = 7; expires = 9 * second })
      else none;
}

start : start_pool (v4 7) (v4 9) (5 * second) (row ∷ other_row ∷ []) (2 * second) ≡ ok started
unfolding start_pool helboot.Network.LeasePool.new_lease_pool helboot.Cmd.LeaseRestore.restore_all
    helboot.Store.Leases.active_leases format_time helboot.Network.LeasePool.restore
start = refl

start_pool_confirms_example : confirm started row.mac (v4 row.ip) (8 * second) ≡ true
unfolding format_time helboot.Network.LeasePool.in_range
start_pool_confirms_example =
    start_pool_confirms (v4 7) (v4 9) (5 * second) (row ∷ other_row ∷ []) (2 * second) started
      table-Distinct start row (8 * second) (inl refl) (omega arith) refl (omega arith)

-- The pool after 20 s, and the same table at a restart.
abbrev reused : LeasePool
reused = assign started "cc" 7 "new" (20 * second)

abbrev restarted : LeasePool
restarted = record {
  start = 7;
  end = 9;
  duration = 5 * second;
  store = some (row ∷ other_row ∷ []);
  by_mac = λ _. none;
  by_ip = λ _. none;
}

reused_address_lost_example :
    (reused.store ≡ some (row ∷ other_row ∷ [])) × (restarted.by_ip 7 ≡ none)
unfolding allocate helboot.Network.LeasePool.choose format_time start_pool
    helboot.Network.LeasePool.new_lease_pool helboot.Cmd.LeaseRestore.restore_all
    helboot.Store.Leases.active_leases
reused_address_lost_example =
    reused_address_lost 9 started reused restarted "cc" absent "new" (20 * second) (21 * second) 7
      (row ∷ other_row ∷ []) row (v4 7) (v4 9) (5 * second) refl refl table-Distinct (inl refl) refl
      (λ e. absurd (ground (arith, (eq_iff "aa" "cc").1 e))) (omega arith) refl

-- A start on an empty table, a lease, and the next start.
abbrev blank : LeasePool
blank = record {
  start = 7;
  end = 9;
  duration = 5 * second;
  store = some [];
  by_mac = λ _. none;
  by_ip = λ _. none;
}

abbrev written : List Lease
written = record { mac = "aa"; ip = 7; hostname = "pc"; expires_at = 7 * second } ∷ []

abbrev held : PoolLease
held = record { mac = "aa"; ip = 7; expires = 7 * second }

abbrev next_pool : LeasePool
next_pool = record blank {
  store = some written;
  by_mac = λ m. if "aa" == m then some held else none;
  by_ip = λ n. if 7 == n then some held else none;
}

next_pool-Reached : Reached 9 next_pool
unfolding start_pool helboot.Network.LeasePool.new_lease_pool helboot.Cmd.LeaseRestore.restore_all
    helboot.Store.Leases.active_leases step allocate helboot.Network.LeasePool.choose assign
    helboot.Store.Leases.ip_taken helboot.Store.Leases.write_row format_time
    helboot.Network.LeasePool.restore
next_pool-Reached =
    next_start {p = step 9 blank (2 * second, allocates "aa" absent "pc")} {rows = written} (v4 7)
      (v4 9) (5 * second) (3 * second)
      (called {p = blank} (2 * second) (allocates "aa" absent "pc")
        (first_start {q = blank} (v4 7) (v4 9) (5 * second) 0 refl (omega arith)))
      refl refl (omega arith)

abbrev client : String
client = "aa"

Reached-one_holder_example : client ≡ client
Reached-one_holder_example =
    Reached-one_holder 9 next_pool client client held held next_pool-Reached refl refl refl
