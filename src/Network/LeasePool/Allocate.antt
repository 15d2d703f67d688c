-- ===== src/Network/LeasePool/Allocate.antt =====
-- Allocate and Confirm of backend/internal/network/leasepool.go.
use helboot.Prelude.{
  ℕ, ◌+◌, ◌≤◌, ◌<◌, String, ◌≡◌, refl, ◌≢◌, Option, none, some, false, arith, eq_iff, Option-cases,
  inl, inr, leb, ◌&&◌, ◌==◌, ℕ_eq,
}
use helboot.Time.{Time}
use helboot.Network.Ip.{Ip, v4, u32_mod}
use helboot.Network.LeasePool.{
  LeasePool, PoolLease, found, assign, choose, allocate, assigned, exhausted, looping, confirm,
  is_vacant,
}
use helboot.Network.LeasePool.FirstFree.{scan-eq-none_free, scan_ends}
use helboot.Network.LeasePool.Invariant.{Inv, Chosen, choose-Chosen, assign-Inv}

abbrev pub lease : String → ℕ → Time → PoolLease
lease mac ip expires = record { mac = mac; ip = ip; expires = expires }

-- What a client gets from Allocate, and what the others keep.
pub record Granted (p q : LeasePool) (mac : String) (now : Time) (ip : ℕ) : Type 0 where
  pub above : p.start ≤ ip
  pub below : ip ≤ p.end
  pub mine : q.by_mac mac ≡ some (lease mac ip (now + p.duration))
  pub kept : (l : PoolLease) → p.by_mac mac ≡ some l → l.ip ≡ ip
  pub others :
      (m : String) (l : PoolLease)
      → m ≢ mac
      → p.by_mac m ≡ some l
      → now ≤ l.expires
      → q.by_mac m ≡ some l

module _ (p : LeasePool) (mac : String) (ip : ℕ) (hostname : String) (now : Time) (v : Inv p)
    (c : Chosen p mac now ip) where
  others_kept :
      (o : Option PoolLease)
      → p.by_ip ip ≡ o
      → (m : String) (l : PoolLease) → m ≢ mac
      → p.by_mac m ≡ some l
      → now ≤ l.expires
      → (assign p mac ip hostname now).by_mac m ≡ some l
  unfolding assign
  others_kept none e m l ne h live = ground (arith, eq_iff mac m)
  others_kept (some old) e m l ne h live = ground (
    arith,
    eq_iff mac m,
    eq_iff old.mac m,
    eq_iff old.mac mac,
    v.mac_side m l,
    v.ip_side ip old,
    c.no_other old,
  )

  assign-Granted : Granted p (assign p mac ip hostname now) mac now ip
  unfolding assign
  assign-Granted = record {
    above = c.above;
    below = c.below;
    mine = ground (arith, eq_iff mac mac);
    kept = c.own;
    others = others_kept (p.by_ip ip) refl;
  }

leased :
    (p : LeasePool) (now : Time) (n : ℕ)
    → is_vacant p now n ≡ false
    → (l : PoolLease) × (p.by_ip n ≡ some l) × (now ≤ l.expires)
unfolding is_vacant
leased p now n h = elim (Option-cases (p.by_ip n)) [
  | inl e ↦ absurd (ground arith)
  | inr (l, e) ↦ (l, e, ground arith)
]

module _ (rounds : ℕ) (p : LeasePool) (mac : String) (requested : Ip) (hostname : String)
    (now : Time) where
  pub allocate-eq-assigned :
      (ip : ℕ) (q : LeasePool)
      → allocate rounds p mac requested hostname now ≡ assigned ip q
      → (choose rounds p mac requested now ≡ found ip) × (q ≡ assign p mac ip hostname now)
  unfolding allocate
  allocate-eq-assigned ip q h = ground arith

  -- An address that Allocate gives lies in the range, is the client's own if it had one, and is
  -- leased to the client for the full term; every other lease that still runs is kept, and the
  -- maps of the pool agree again. The range ends before 255.255.255.255.
  pub allocate-Granted :
      (ip : ℕ) (q : LeasePool)
      → p.end + 1 < u32_mod
      → Inv p
      → allocate rounds p mac requested hostname now ≡ assigned ip q
      → Granted p q mac now ip × Inv q
  allocate-Granted ip q w v h =
      let (picked, e) = allocate-eq-assigned ip q h in
      let c = choose-Chosen rounds p mac requested now ip w v picked in
      rw e (assign-Granted p mac ip hostname now v c, assign-Inv p mac ip hostname now v c)

  -- A client that holds a lease, expired or not, gets its own address again, whatever it asked
  -- for.
  pub allocate_own :
      (l : PoolLease)
      → p.by_mac mac ≡ some l
      → allocate rounds p mac requested hostname now
        ≡ assigned l.ip (assign p mac l.ip hostname now)
  unfolding allocate choose
  allocate_own l h = ground arith

  -- With a round for each address and one more, the scan of a range that ends before
  -- 255.255.255.255 ends.
  pub allocate_ends :
      p.end + 1 < u32_mod
      → p.start ≤ p.end + 1
      → p.end + 1 < p.start + rounds
      → allocate rounds p mac requested hostname now ≢ looping
  unfolding allocate choose
  allocate_ends w r f = ground (arith, scan_ends p now w rounds p.start)

  -- Allocate fails only for a client without a lease, when a lease runs on each address of the
  -- range. The range ends before 255.255.255.255.
  pub allocate-exhausted :
      p.end + 1 < u32_mod
      → allocate rounds p mac requested hostname now ≡ exhausted
      → (p.by_mac mac ≡ none)
        × ((n : ℕ)
            → p.start ≤ n
            → n ≤ p.end
            → (l : PoolLease) × (p.by_ip n ≡ some l) × (now ≤ l.expires))
  unfolding allocate choose
  allocate-exhausted w h = (
    ground arith,
    λ n lo hi. leased p now n (ground (arith, scan-eq-none_free p now w rounds p.start n)),
  )

-- Until it expires, and no later, the client's DHCPREQUEST for its address is confirmed, and that
-- for any other address is not.
pub confirm-Granted :
    (p q : LeasePool) (mac : String) (now : Time) (ip asked : ℕ) (later : Time)
    → Granted p q mac now ip
    → confirm q mac (v4 asked) later ≡ (leb later (now + p.duration) && asked == ip)
unfolding confirm
confirm-Granted p q mac now ip asked later g = ground (arith, g.mine)
