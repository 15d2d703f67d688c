-- ===== src/Network/LeasePool.antt =====
-- The address pool: backend/internal/network/leasepool.go. Each method takes the value of p.now().
-- The two maps hold the same immutable leases, so the pointers are kept as values.
pub mod FirstFree
pub mod Invariant
pub mod Allocate
pub mod History
pub mod Wrap
use helboot.Prelude.{
  ℕ, zero, suc, ◌+◌, ◌%◌, String, Bool, true, false, ◌||◌, List, Option, none, some, ◌==◌, ℕ_eq,
  String_eq, ltb, leb, if◌then◌else◌, Map, update,
}
use helboot.Time.{Time, after}
use helboot.Store.Leases.{Lease, upsert_lease, delete_lease}
use helboot.Network.Ip.{Ip, u32_mod, ip_to_uint}

pub record PoolLease : Type 0 where
  pub mac : String
  pub ip : ℕ
  pub expires : Time

pub record LeasePool : Type 0 where
  pub start : ℕ
  pub end : ℕ
  pub duration : ℕ
  -- The rows behind the LeaseStore; `none` for a nil store.
  pub store : Option (List Lease)
  pub by_mac : Map String PoolLease
  pub by_ip : Map ℕ PoolLease

pub data NewError : Type 0 where
  not_ipv4 start_after_end : NewError

pub data NewResult : Type 0 where
  ok : LeasePool → NewResult
  err : NewError → NewResult

unfoldable pub new_lease_pool : Ip → Ip → ℕ → Option (List Lease) → NewResult
unfolding ip_to_uint
new_lease_pool start end duration store = elim (ip_to_uint start) [
  | none ↦ err not_ipv4
  | some s ↦ elim (ip_to_uint end) [
    | none ↦ err not_ipv4
    | some e ↦
        if ltb e s
        then err start_after_end
        else ok (record {
          start = s;
          end = e;
          duration = duration;
          store = store;
          by_mac = λ _. none;
          by_ip = λ _. none;
        })
  ]
]

unfoldable pub in_range : LeasePool → ℕ → Bool
in_range p n = if ltb n p.start || ltb p.end n then false else true

-- p.byMAC[mac] = l; p.byIP[n] = l
unfoldable pub enter : LeasePool → PoolLease → LeasePool
enter p l = record p {
  by_mac = update p.by_mac l.mac (some l);
  by_ip = update p.by_ip l.ip (some l);
}

unfoldable pub restore : LeasePool → String → Ip → Time → LeasePool
unfolding ip_to_uint in_range enter
restore p mac ip expires = elim (ip_to_uint ip) [
  | none ↦ p
  | some n ↦ if in_range p n then enter p (record { mac = mac; ip = n; expires = expires }) else p
]

-- l == nil || now.After(l.expires), for the lease of an address
unfoldable pub is_vacant : LeasePool → Time → ℕ → Bool
is_vacant p now n = elim (p.by_ip n) [ none ↦ true | some l ↦ after now l.expires ]

unfoldable pub is_free : LeasePool → Ip → Time → Bool
unfolding ip_to_uint in_range is_vacant
is_free p ip now = elim (ip_to_uint ip) [
  | none ↦ false
  | some n ↦ if in_range p n then is_vacant p now n else false
]

-- What the scan for an address comes to; `running` is for a loop still going after its rounds.
pub data Scan : Type 0 where
  found : ℕ → Scan
  none_free : Scan
  running : Scan

-- The loop of firstFree: the counter is a uint32 and wraps.
unfoldable pub scan : ℕ → LeasePool → Time → ℕ → Scan
unfolding is_vacant
scan zero p now n = running
scan (suc rounds) p now n =
    let rest = scan rounds p now ((n + 1) % u32_mod) in
    if leb n p.end then (if is_vacant p now n then found n else rest) else none_free

unfoldable pub first_free : ℕ → LeasePool → Time → Scan
unfolding scan
first_free rounds p now = scan rounds p now p.start

-- The `switch` of Allocate.
unfoldable pub choose : ℕ → LeasePool → String → Ip → Time → Scan
unfolding is_free first_free ip_to_uint
choose rounds p mac requested now = elim (p.by_mac mac) [
  | some l ↦ found l.ip
  | none ↦
      if is_free p requested now
      then (elim (ip_to_uint requested) [ none ↦ found 0 | some n ↦ found n ])
      else first_free rounds p now
]

-- The holder of an expired lease on the address loses it.
unfoldable pub evict : LeasePool → String → ℕ → LeasePool
evict p mac ip = elim (p.by_ip ip) [
  | none ↦ p
  | some old ↦ if old.mac == mac then p else record p { by_mac = update p.by_mac old.mac none }
]

-- A failure to persist is ignored, and leaves the rows as they were.
unfoldable pub persist : Option (List Lease) → Lease → Option (List Lease)
unfolding upsert_lease
persist none row = none
persist (some rows) row = elim (upsert_lease row rows) [
  | none ↦ some rows
  | some rows' ↦ some rows'
]

-- The second half of Allocate, once the address is chosen.
unfoldable pub assign : LeasePool → String → ℕ → String → Time → LeasePool
unfolding evict enter persist
assign p mac ip hostname now =
    let expires = now + p.duration in
    let row : Lease = record { mac = mac; ip = ip; hostname = hostname; expires_at = expires } in
    let q = enter (evict p mac ip) (record { mac = mac; ip = ip; expires = expires }) in
    record q { store = persist p.store row }

pub data Allocation : Type 0 where
  assigned : ℕ → LeasePool → Allocation
  exhausted : Allocation
  looping : Allocation

unfoldable pub allocate : ℕ → LeasePool → String → Ip → String → Time → Allocation
allocate rounds p mac requested hostname now = elim (choose rounds p mac requested now) [
  | found ip ↦ assigned ip (assign p mac ip hostname now)
  | none_free ↦ exhausted
  | running ↦ looping
]

unfoldable pub confirm : LeasePool → String → Ip → Time → Bool
unfolding ip_to_uint
confirm p mac ip now = elim (p.by_mac mac) [
  | none ↦ false
  | some l ↦
      if after now l.expires
      then false
      else (elim (ip_to_uint ip) [ none ↦ false | some n ↦ n == l.ip ])
]

unfoldable pub release : LeasePool → String → LeasePool
unfolding delete_lease
release p mac = elim (p.by_mac mac) [
  | none ↦ p
  | some l ↦ record p {
    by_mac = update p.by_mac mac none;
    by_ip = update p.by_ip l.ip none;
    store = elim p.store [ none ↦ none | some rows ↦ some (delete_lease mac rows) ];
  }
]
