-- ===== src/Network/LeasePool/Wrap.antt =====
-- A range that ends at 255.255.255.255: firstFree of backend/internal/network/leasepool.go.
use helboot.Prelude.{
  ℕ, zero, suc, ◌+◌, ◌%◌, ◌≤◌, ◌<◌, String, ◌≡◌, refl, ap, true, false, none, arith, inl, inr, ◌⊎◌,
  ◌∙◌,
}
use helboot.Time.{Time}
use helboot.Network.Ip.{absent, u32_mod}
use helboot.Network.LeasePool.{
  LeasePool, found, scan, first_free, is_vacant, is_free, choose, allocate, assign, assigned,
}

u32_wrap : (n : ℕ) → n + 1 ≡ u32_mod → (n + 1) % u32_mod ≡ 0
u32_wrap n h = rw h refl

u32_next : (n : ℕ) → n + 1 < u32_mod → (n + 1) % u32_mod ≡ n + 1
u32_next n h = omega arith

module _ (p : LeasePool) (now : Time) (last : p.end + 1 ≡ u32_mod)
    (taken : (n : ℕ) → p.start ≤ n → n ≤ p.end → is_vacant p now n ≡ false)
    (zero_free : is_vacant p now 0 ≡ true) where
  scan_zero : (rounds : ℕ) → scan (suc rounds) p now 0 ≡ found 0
  unfolding scan
  scan_zero rounds = ground (arith)

  scan_past :
      (rounds n : ℕ)
      → p.start ≤ n
      → n ≤ p.end
      → scan (suc rounds) p now n ≡ scan rounds p now ((n + 1) % u32_mod)
  unfolding scan
  scan_past rounds n low high = let busy = taken n low high in ground arith

  scan_wraps :
      (rounds n : ℕ)
      → p.start ≤ n
      → n ≤ p.end
      → p.end + 2 ≤ n + rounds
      → scan rounds p now n ≡ found 0
  scan_wraps zero n low high enough = absurd (omega arith)
  scan_wraps (suc zero) n low high enough = absurd (omega arith)
  scan_wraps (suc (suc rounds)) n low high enough =
      scan_past (suc rounds) n low high ∙ elim (last_or_not n high) [
        | inl e ↦ ap (scan (suc rounds) p now) (u32_wrap n e) ∙ scan_zero rounds
        | inr less ↦
            ap (scan (suc rounds) p now) (u32_next n less)
            ∙ scan_wraps (suc rounds) (n + 1) (omega arith) (omega arith) (omega arith)
      ]
    where
      last_or_not : (k : ℕ) → k ≤ p.end → (k + 1 ≡ u32_mod) ⊎ (k + 1 < u32_mod)
      last_or_not k le = ground arith

  -- Where the range ends at 255.255.255.255, a lease runs on each of its addresses and none on
  -- 0.0.0.0, a new client that asks for no address is given 0.0.0.0, outside of the range. There
  -- is a round for each address and one more.
  pub allocate_wraps :
      (rounds : ℕ) (mac hostname : String)
      → p.start ≤ p.end
      → p.end + 2 ≤ p.start + rounds
      → p.by_mac mac ≡ none
      → allocate rounds p mac absent hostname now ≡ assigned 0 (assign p mac 0 hostname now)
  unfolding allocate choose is_free first_free
  allocate_wraps rounds mac hostname range enough new =
      let end_of_scan = scan_wraps rounds p.start (omega arith) range enough in ground arith
