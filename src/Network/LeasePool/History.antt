-- ===== src/Network/LeasePool/History.antt =====
-- The calls that clients make on the pool of backend/internal/network/leasepool.go.
use helboot.Prelude.{ℕ, ◌+◌, ◌<◌, String, ◌≡◌, refl, ◌∙◌, ap, List, Option, arith}
use helboot.Time.{Time}
use helboot.Store.Leases.{Lease}
use helboot.Network.Ip.{Ip, u32_mod}
use helboot.Network.LeasePool.{
  LeasePool, ok, new_lease_pool, allocate, Allocation, assigned, exhausted, looping, assign,
  release,
}
use helboot.Network.LeasePool.Invariant.{Inv, evict_end, release-Inv}
use helboot.Network.LeasePool.Allocate.{allocate-Granted, allocate-eq-assigned}

pub data Call : Type 0 where
  allocates : String → Ip → String → Call
  releases : String → Call

unfoldable pub after_allocate : LeasePool → Allocation → LeasePool
after_allocate p (assigned ip q) = q
after_allocate p exhausted = p
after_allocate p looping = p

unfoldable pub step : ℕ → LeasePool → Time × Call → LeasePool
unfolding after_allocate
step rounds p (now, allocates mac requested hostname) =
    after_allocate p (allocate rounds p mac requested hostname now)
step rounds p (now, releases mac) = release p mac

-- The invariant, and an end of the range that stays where it is.
pub record Keeps (end : ℕ) (p : LeasePool) : Type 0 where
  pub inv : Inv p
  pub same_end : p.end ≡ end

end-assign :
    (p : LeasePool) (mac : String) (ip : ℕ) (hostname : String) (now : Time)
    → (assign p mac ip hostname now).end ≡ p.end
unfolding assign
end-assign p mac ip hostname now = evict_end p mac ip

end-release : (p : LeasePool) (mac : String) → (release p mac).end ≡ p.end
unfolding release
end-release p mac = ground arith

module _ (rounds end : ℕ) (w : end + 1 < u32_mod) where
  allocate-Keeps :
      (p : LeasePool) (mac : String) (requested : Ip) (hostname : String) (now : Time)
      (r : Allocation)
      → allocate rounds p mac requested hostname now ≡ r
      → Keeps end p
      → Keeps end (after_allocate p r)
  unfolding after_allocate
  allocate-Keeps p mac requested hostname now (assigned ip q) e k =
      let (_, eq) = allocate-eq-assigned rounds p mac requested hostname now ip q e in
      record {
        inv =
            (allocate-Granted rounds p mac requested hostname now ip q (omega (arith, k.same_end))
              k.inv e).1;
        same_end = ap (λ (x : LeasePool). x.end) eq ∙ end-assign p mac ip hostname now ∙ k.same_end;
      }
  allocate-Keeps p mac requested hostname now exhausted e k = k
  allocate-Keeps p mac requested hostname now looping e k = k

  pub step-Keeps : (p : LeasePool) (c : Time × Call) → Keeps end p → Keeps end (step rounds p c)
  unfolding step
  step-Keeps p (now, allocates mac requested hostname) k =
      allocate-Keeps p mac requested hostname now _ refl k
  step-Keeps p (now, releases mac) k = record {
    inv = release-Inv p mac k.inv;
    same_end = end-release p mac ∙ k.same_end;
  }

pub new-Inv :
    (start end : Ip) (duration : ℕ) (store : Option (List Lease)) (p : LeasePool)
    → new_lease_pool start end duration store ≡ ok p
    → Inv p
unfolding new_lease_pool
new-Inv start end duration store p h = record {
  mac_side = λ m l e. absurd (ground arith);
  ip_side = λ n l e. absurd (ground arith);
}
