-- ===== src/Network/LeasePool/Invariant.antt =====
-- The invariant of the pool of backend/internal/network/leasepool.go, method by method.
use helboot.Prelude.{
  ℕ, ◌+◌, ◌≤◌, ◌<◌, String, ◌≡◌, refl, ◌⊎◌, Option, none, some, arith, eq_iff, Bool-cases, inl, inr,
}
use helboot.Time.{Time}
use helboot.Network.Ip.{Ip, v4, u32_mod}
use helboot.Network.LeasePool.{
  LeasePool, PoolLease, found, evict, assign, release, restore, choose, in_range,
}
use helboot.Network.LeasePool.FirstFree.{scan-eq-found}

-- The two maps agree, and every leased address lies in the range.
pub record Inv (p : LeasePool) : Type 0 where
  pub mac_side :
      (m : String) (l : PoolLease)
      → p.by_mac m ≡ some l
      → (l.mac ≡ m) × (p.by_ip l.ip ≡ some l) × (p.start ≤ l.ip) × (l.ip ≤ p.end)
  pub ip_side :
      (n : ℕ) (l : PoolLease) → p.by_ip n ≡ some l → (l.ip ≡ n) × (p.by_mac l.mac ≡ some l)

-- An address that may be given: in the range, the MAC's own if it has one, and on which nobody
-- else has a lease that still runs.
pub record Chosen (p : LeasePool) (mac : String) (now : Time) (ip : ℕ) : Type 0 where
  pub above : p.start ≤ ip
  pub below : ip ≤ p.end
  pub own : (l : PoolLease) → p.by_mac mac ≡ some l → l.ip ≡ ip
  pub no_other : (l : PoolLease) → p.by_ip ip ≡ some l → (l.mac ≡ mac) ⊎ (l.expires < now)

module _ (rounds : ℕ) (p : LeasePool) (mac : String) (requested : Ip) (now : Time) (ip : ℕ)
    (w : p.end + 1 < u32_mod) (v : Inv p) (h : choose rounds p mac requested now ≡ found ip) where
  choose_cases : (o : Option PoolLease) → p.by_mac mac ≡ o → Chosen p mac now ip
  unfolding choose
  choose_cases none e = record {
    above = ground (arith, scan-eq-found p now w rounds p.start ip);
    below = ground (arith, scan-eq-found p now w rounds p.start ip);
    own = λ l e'. ground arith;
    no_other = λ l e'. ground (arith, scan-eq-found p now w rounds p.start ip);
  }
  choose_cases (some k) e = record {
    above = ground (arith, v.mac_side mac k);
    below = ground (arith, v.mac_side mac k);
    own = λ l e'. ground arith;
    no_other = λ l e'. ground (arith, v.mac_side mac k);
  }

  pub choose-Chosen : Chosen p mac now ip
  choose-Chosen = choose_cases (p.by_mac mac) refl

pub evict_start : (p : LeasePool) (mac : String) (ip : ℕ) → (evict p mac ip).start ≡ p.start
unfolding evict
evict_start p mac ip = ground arith

pub evict_end : (p : LeasePool) (mac : String) (ip : ℕ) → (evict p mac ip).end ≡ p.end
unfolding evict
evict_end p mac ip = ground arith

module _ (p : LeasePool) (mac : String) (ip : ℕ) (hostname : String) (now : Time) (v : Inv p)
    (c : Chosen p mac now ip) where
  assign_mac_side :
      (o : Option PoolLease)
      → p.by_ip ip ≡ o
      → (m : String) (k : PoolLease) → (assign p mac ip hostname now).by_mac m ≡ some k
      → (k.mac ≡ m)
        × ((assign p mac ip hostname now).by_ip k.ip ≡ some k)
        × (p.start ≤ k.ip)
        × (k.ip ≤ p.end)
  unfolding assign
  assign_mac_side none e m k h = ground (arith, eq_iff mac m, v.mac_side m k, c.own k)
  assign_mac_side (some old) e m k h = ground (
    arith,
    eq_iff mac m,
    eq_iff old.mac m,
    eq_iff old.mac mac,
    v.mac_side m k,
    c.own k,
    v.ip_side ip old,
  )

  assign_ip_side :
      (o : Option PoolLease)
      → p.by_ip ip ≡ o
      → (n : ℕ) (k : PoolLease) → (assign p mac ip hostname now).by_ip n ≡ some k
      → (k.ip ≡ n) × ((assign p mac ip hostname now).by_mac k.mac ≡ some k)
  unfolding assign
  assign_ip_side none e n k h =
      ground (arith, eq_iff mac k.mac, eq_iff mac mac, v.ip_side n k, c.own k)
  assign_ip_side (some old) e n k h = ground (
    arith,
    eq_iff mac mac,
    eq_iff mac k.mac,
    eq_iff old.mac k.mac,
    eq_iff old.mac mac,
    v.ip_side n k,
    c.own k,
    v.ip_side ip old,
  )

  pub assign-Inv : Inv (assign p mac ip hostname now)
  unfolding assign
  assign-Inv = record {
    mac_side = λ m k h.
        rw (evict_start p mac ip, evict_end p mac ip) (assign_mac_side (p.by_ip ip) refl m k h);
    ip_side = assign_ip_side (p.by_ip ip) refl;
  }

module _ (p : LeasePool) (mac : String) (v : Inv p) where
  release_cases : (o : Option PoolLease) → p.by_mac mac ≡ o → Inv (release p mac)
  unfolding release
  release_cases none e = record {
    mac_side = λ m k h. ground (arith, v.mac_side m k);
    ip_side = λ n k h. ground (arith, v.ip_side n k);
  }
  release_cases (some l) e = record {
    mac_side = λ m k h. ground (arith, eq_iff mac m, v.mac_side m k, v.mac_side mac l);
    ip_side = λ n k h. ground (arith, eq_iff mac k.mac, v.ip_side n k, v.mac_side mac l);
  }

  pub release-Inv : Inv (release p mac)
  release-Inv = release_cases (p.by_mac mac) refl

-- Restoring an address and a MAC that are both unheld.
pub restore-Inv :
    (p : LeasePool) (mac : String) (ip : ℕ) (expires : Time)
    → Inv p
    → p.by_mac mac ≡ none
    → p.by_ip ip ≡ none
    → Inv (restore p mac (v4 ip) expires)
unfolding restore
restore-Inv p mac ip expires v hm hi = elim (Bool-cases (in_range p ip)) [
  | inl t ↦ rw t (record {
    mac_side = λ m k h. ground (arith, eq_iff mac m, v.mac_side m k);
    ip_side = λ n k h. ground (arith, eq_iff mac k.mac, eq_iff mac mac, v.ip_side n k);
  })
  | inr t ↦ rw t v
]
