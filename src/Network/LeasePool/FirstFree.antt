-- ===== src/Network/LeasePool/FirstFree.antt =====
-- The loop of firstFree in backend/internal/network/leasepool.go.
use native.Mathlib.Decide.{ℕ_discrete}
use helboot.Prelude.{ℕ, zero, suc, ◌+◌, ◌%◌, ◌≤◌, ◌<◌, ◌≡◌, ◌≢◌, true, false, arith, subst}
use helboot.Time.{Time}
use helboot.Network.Ip.{u32_mod}
use helboot.Network.LeasePool.{LeasePool, found, none_free, running, is_vacant, scan}

-- The first vacant address from `n` on, up to the end of the range.
pub record FirstVacant (p : LeasePool) (now : Time) (n ip : ℕ) : Type 0 where
  pub from : n ≤ ip
  pub upto : ip ≤ p.end
  pub vacant : is_vacant p now ip ≡ true
  pub least : (k : ℕ) → n ≤ k → k < ip → is_vacant p now k ≡ false

module _ (p : LeasePool) (now : Time) where
  FirstVacant-here : (n : ℕ) → n ≤ p.end → is_vacant p now n ≡ true → FirstVacant p now n n
  FirstVacant-here n h v = record {
    from = omega arith;
    upto = h;
    vacant = v;
    least = λ k lo hi. absurd (omega arith);
  }

  FirstVacant-later :
      (n ip : ℕ) → is_vacant p now n ≡ false → FirstVacant p now (n + 1) ip → FirstVacant p now n ip
  FirstVacant-later n ip t v = record {
    from = omega arith;
    upto = v.upto;
    vacant = v.vacant;
    least = λ k lo hi. elim (ℕ_discrete n k) [
      | yes e ↦ subst (λ j. is_vacant p now j ≡ false) e t
      | no ne ↦ v.least k (omega arith) hi
    ];
  }

module _ (p : LeasePool) (now : Time) (no_wrap : p.end + 1 < u32_mod) where
  next : (n : ℕ) → n ≤ p.end → (n + 1) % u32_mod ≡ n + 1
  next n h = omega arith

  pub scan-eq-found : (rounds n ip : ℕ) → scan rounds p now n ≡ found ip → FirstVacant p now n ip
  unfolding scan
  scan-eq-found zero n ip h = cc
  scan-eq-found (suc r) n ip h = ground (
    arith,
    next n,
    scan-eq-found r (n + 1) ip,
    FirstVacant-here p now n,
    FirstVacant-later p now n ip,
  )

  pub scan-eq-none_free :
      (rounds n k : ℕ)
      → scan rounds p now n ≡ none_free
      → n ≤ k
      → k ≤ p.end
      → is_vacant p now k ≡ false
  unfolding scan
  scan-eq-none_free zero n k h lo hi = cc
  scan-eq-none_free (suc r) n k h lo hi = elim (ℕ_discrete n k) [
    | yes e ↦ subst (λ j. is_vacant p now j ≡ false) e (ground arith)
    | no ne ↦ ground (arith, next n, scan-eq-none_free r (n + 1) k)
  ]

  -- One round for each address of the range, and one for the test that ends the loop.
  pub scan_ends :
      (rounds n : ℕ) → n ≤ p.end + 1 → p.end + 1 < n + rounds → scan rounds p now n ≢ running
  unfolding scan
  scan_ends zero n le h = absurd (omega arith)
  scan_ends (suc r) n le h = ground (arith, next n, scan_ends r (n + 1))
