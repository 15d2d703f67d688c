-- ===== src/Cmd/LeaseRestore/OneHolder.antt =====
-- The pool of backend/internal/network/leasepool.go from start-up to start-up: each start restores
-- the leases of the table that the pool before it wrote, as buildDHCPServer of
-- backend/cmd/helboot/services.go does.
use helboot.Prelude.{
  ℕ, ◌+◌, ◌<◌, String, ◌≡◌, refl, sym, ap, ◌∙◌, List, [], ◌∷◌, subst, Option, none, some, arith,
  Option-cases, inl, inr,
}
use helboot.Time.{Time}
use helboot.Store.Leases.{Lease, upsert_lease, active_leases}
use helboot.Store.Leases.Unique.{Distinct, upsert_lease-Distinct, delete_lease-Distinct}
use helboot.Network.Ip.{Ip, v4, u32_mod}
use helboot.Network.LeasePool.{
  LeasePool, PoolLease, ok, new_lease_pool, allocate, Allocation, assigned, exhausted, looping,
  persist, assign, release, restore,
}
use helboot.Network.LeasePool.Invariant.{Inv}
use helboot.Network.LeasePool.Allocate.{allocate-eq-assigned}
use helboot.Network.LeasePool.History.{Call, allocates, releases, after_allocate, step, step-Keeps}
use helboot.Cmd.LeaseRestore.{start_pool, restore_all}
use helboot.Cmd.LeaseRestore.Restart.{start_pool-Inv, start_pool-eq-ok}

-- The pools that come about: a start on an empty table, calls, and starts on the table that the
-- pool before wrote, each with a configuration of its own whose range ends before 255.255.255.255.
pub data Reached (rounds : ℕ) : LeasePool → Type 0 where
  first_start :
      {q : LeasePool} (start end : Ip) (duration : ℕ) (now : Time)
      → start_pool start end duration [] now ≡ ok q
      → q.end + 1 < u32_mod
      → Reached rounds q
  called :
      {p : LeasePool} (now : Time) (c : Call)
      → Reached rounds p
      → Reached rounds (step rounds p (now, c))
  next_start :
      {p q : LeasePool} {rows : List Lease} (start end : Ip) (duration : ℕ) (now : Time)
      → Reached rounds p
      → p.store ≡ some rows
      → start_pool start end duration rows now ≡ ok q
      → q.end + 1 < u32_mod
      → Reached rounds q

-- What every such pool has: maps that agree, and a table of distinct columns.
pub record Sound (p : LeasePool) : Type 0 where
  pub inv : Inv p
  pub below : p.end + 1 < u32_mod
  pub distinct : (rows : List Lease) → p.store ≡ some rows → Distinct rows

Stored : Option (List Lease) → Type 0
Stored store = (rows : List Lease) → store ≡ some rows → Distinct rows

persist-Stored :
    (store : Option (List Lease)) (row : Lease) → Stored store → Stored (persist store row)
unfolding persist Stored
persist-Stored none row d = d
persist-Stored (some old) row d = elim (Option-cases (upsert_lease row old)) [
  | inl n ↦ rw (persist, n) d
  | inr (new, n) ↦
      λ rows e. let written = upsert_lease-Distinct row old rows (d old refl) in ground arith
]

release-Stored : (p : LeasePool) (mac : String) → Stored p.store → Stored (release p mac).store
unfolding release Stored
release-Stored p mac d = elim (Option-cases (p.by_mac mac)) [
  | inl n ↦ rw (release, n) d
  | inr (l, n) ↦ elim (Option-cases p.store) [
    | inl e ↦ λ rows f. absurd (ground arith)
    | inr (old, e) ↦ λ rows f. let deleted = delete_lease-Distinct mac old (d old e) in ground arith
  ]
]

step-Stored :
    (rounds : ℕ) (p : LeasePool) (now : Time) (c : Call)
    → Stored p.store
    → Stored (step rounds p (now, c)).store
unfolding step assign persist
step-Stored rounds p now (releases mac) d = release-Stored p mac d
step-Stored rounds p now (allocates mac requested hostname) d =
    go (allocate rounds p mac requested hostname now) refl
  where
    go :
        (r : Allocation)
        → allocate rounds p mac requested hostname now ≡ r
        → Stored (after_allocate p r).store
    go (assigned ip q) e =
        let (_, eq) = allocate-eq-assigned rounds p mac requested hostname now ip q e in
        subst (λ (x : LeasePool). Stored x.store) (sym eq) (persist-Stored p.store _ d)
    go exhausted e = d
    go looping e = d

restore_store :
    (p : LeasePool) (mac : String) (ip : ℕ) (expires : Time)
    → (restore p mac (v4 ip) expires).store ≡ p.store
unfolding restore
restore_store p mac ip expires = ground arith

restore_all_store : (p : LeasePool) (rows : List Lease) → (restore_all p rows).store ≡ p.store
unfolding restore_all
restore_all_store p [] = refl
restore_all_store p (r ∷ rows) =
    restore_all_store (restore p r.mac (v4 r.ip) r.expires_at) rows
    ∙ restore_store p r.mac r.ip r.expires_at

new_lease_pool_store :
    (start end : Ip) (duration : ℕ) (store : Option (List Lease)) (p : LeasePool)
    → new_lease_pool start end duration store ≡ ok p
    → p.store ≡ store
unfolding new_lease_pool
new_lease_pool_store start end duration store p h = ground arith

start_pool_store :
    (start end : Ip) (duration : ℕ) (rows : List Lease) (now : Time) (q : LeasePool)
    → start_pool start end duration rows now ≡ ok q
    → q.store ≡ some rows
start_pool_store start end duration rows now q h =
    let (p, e, eq) = start_pool-eq-ok start end duration rows now q h in
    ap (λ (x : LeasePool). x.store) eq
    ∙ restore_all_store p (active_leases now rows)
    ∙ new_lease_pool_store start end duration (some rows) p e

start-Sound :
    (start end : Ip) (duration : ℕ) (rows : List Lease) (now : Time) (q : LeasePool)
    → Distinct rows
    → start_pool start end duration rows now ≡ ok q
    → q.end + 1 < u32_mod
    → Sound q
start-Sound start end duration rows now q d h w = record {
  inv = start_pool-Inv start end duration rows now q d h;
  below = w;
  distinct = λ rows' e.
      let stored = start_pool_store start end duration rows now q h in
      let same : rows ≡ rows' = ground arith in subst Distinct same d;
}

pub Reached-Sound : {rounds : ℕ} {p : LeasePool} → Reached rounds p → Sound p
unfolding Stored
Reached-Sound (first_start start end duration now h w) =
    start-Sound start end duration [] now _ tt h w
Reached-Sound {rounds = rounds} (called {p = p} now c r) =
    let s = Reached-Sound r in
    let k = step-Keeps rounds p.end s.below p (now, c) (record { inv = s.inv; same_end = refl }) in
    record {
      inv = k.inv;
      below = rw k.same_end s.below;
      distinct = step-Stored rounds p now c s.distinct;
    }
Reached-Sound (next_start start end duration now r e h w) =
    start-Sound start end duration _ now _ ((Reached-Sound r).distinct _ e) h w

-- In a pool that comes about by a start on an empty table, calls of Allocate and Release, and
-- further starts, each on the table that the pool before it wrote and with a range of its own, two
-- clients never hold leases on the same address. Every range ends before 255.255.255.255.
pub Reached-one_holder :
    (rounds : ℕ) (p : LeasePool) (m n : String) (k l : PoolLease)
    → Reached rounds p
    → p.by_mac m ≡ some k
    → p.by_mac n ≡ some l
    → k.ip ≡ l.ip
    → m ≡ n
Reached-one_holder rounds p m n k l r hk hl e =
    let v = (Reached-Sound r).inv in ground (arith, v.mac_side m k hk, v.mac_side n l hl)
