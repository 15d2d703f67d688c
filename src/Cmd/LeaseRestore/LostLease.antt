-- ===== src/Cmd/LeaseRestore/LostLease.antt =====
-- A lease that is not persisted: Allocate of backend/internal/network/leasepool.go on an address
-- that the table still names for another client, and a restart after it.
use helboot.Prelude.{
  ℕ, ◌≤◌, String, ◌≡◌, refl, ◌≢◌, ◌∙◌, sym, ap, false, List, [], ◌∷◌, none, some, arith, All, Any,
  inl, inr, keep, Bool-cases, Bool, subst, ◌+◌,
}
use helboot.Time.{Time, format_time}
use helboot.Store.Leases.{Lease, active_leases}
use helboot.Store.Leases.Unique.{Apart, Distinct, Any-ip_taken}
use helboot.Network.Ip.{Ip}
use helboot.Network.LeasePool.{LeasePool, ok, assign, allocate, assigned, persist}
use helboot.Network.LeasePool.Allocate.{allocate-eq-assigned}
use helboot.Cmd.LeaseRestore.{start_pool}
use helboot.Cmd.LeaseRestore.Restart.{start_pool-eq-ok, new-by_ip, restore_all_ip}

Any-blocks :
    (rows : List Lease) (mac : String) (ip : ℕ) (r : Lease)
    → Any (λ s. s ≡ r) rows
    → r.ip ≡ ip
    → r.mac ≢ mac
    → Any (λ s. (s.ip ≡ ip) × (s.mac ≢ mac)) rows
Any-blocks [] mac ip r m e ne = absurd m
Any-blocks (s ∷ rows) mac ip r (inl q) e ne = inl (cc, λ x. ne (cc))
Any-blocks (s ∷ rows) mac ip r (inr m) e ne = inr (Any-blocks rows mac ip r m e ne)

others_elsewhere :
    (rows : List Lease) (r : Lease)
    → All (Apart r) rows
    → (f : Lease → Bool) → All (λ s. s.ip ≢ r.ip) (keep f rows)
others_elsewhere [] r a f = tt
others_elsewhere (s ∷ rows) r a f = elim (Bool-cases (f s)) [
  | inl t ↦ rw t ((λ e. a.0.1 (sym e)), others_elsewhere rows r a.1 f)
  | inr t ↦ rw t (others_elsewhere rows r a.1 f)
]

-- A row that the filter drops leaves its address unnamed.
dropped :
    (f : Lease → Bool) (rows : List Lease) (r : Lease)
    → Distinct rows
    → Any (λ s. s ≡ r) rows
    → f r ≡ false
    → All (λ s. s.ip ≢ r.ip) (keep f rows)
dropped f [] r d m t = absurd m
dropped f (s ∷ rows) r d (inl e) t =
    let t' : f s ≡ false = cc in
    rw t' (subst (λ x. All (λ s. s.ip ≢ x) (keep f rows)) (cc) (others_elsewhere rows s d.0 f))
dropped f (s ∷ rows) r d (inr m) t = elim (Bool-cases (f s)) [
  | inl a ↦ rw a (apart rows d.0 m, dropped f rows r d.1 m t)
  | inr a ↦ rw a (dropped f rows r d.1 m t)
]
  where
    apart : (rs : List Lease) → All (Apart s) rs → Any (λ k. k ≡ r) rs → s.ip ≢ r.ip
    apart [] h n = absurd n
    apart (k ∷ rs) h (inl e) = λ q. h.0.1 (cc)
    apart (k ∷ rs) h (inr n) = apart rs h.1 n

persist_blocked :
    (rows : List Lease) (row r : Lease)
    → Any (λ s. s ≡ r) rows
    → r.ip ≡ row.ip
    → r.mac ≢ row.mac
    → persist (some rows) row ≡ some rows
unfolding persist
persist_blocked rows row r m e ne =
    ground (arith, Any-ip_taken rows row.mac row.ip (Any-blocks rows row.mac row.ip r m e ne))

store-assign :
    (p : LeasePool) (mac : String) (ip : ℕ) (hostname : String) (now : Time)
    → (assign p mac ip hostname now).store
      ≡ persist p.store
          (record { mac = mac; ip = ip; hostname = hostname; expires_at = now + p.duration })
unfolding assign
store-assign p mac ip hostname now = refl

-- When Allocate gives a client the address of another client's expired lease, whose row is still
-- in the table, the new lease is not written: the table is left as it was. A server that restarts
-- after the old row expired has no lease on the address, whoever holds it.
pub reused_address_lost :
    (rounds : ℕ) (p q restarted : LeasePool) (mac : String) (requested : Ip) (hostname : String)
    (now later : Time) (ip : ℕ) (rows : List Lease) (r : Lease) (start end : Ip) (duration : ℕ)
    → allocate rounds p mac requested hostname now ≡ assigned ip q
    → p.store ≡ some rows
    → Distinct rows
    → Any (λ s. s ≡ r) rows
    → r.ip ≡ ip
    → r.mac ≢ mac
    → r.expires_at ≤ format_time later
    → start_pool start end duration rows later ≡ ok restarted
    → (q.store ≡ some rows) × (restarted.by_ip ip ≡ none)
unfolding active_leases
reused_address_lost rounds p q restarted mac requested hostname now later ip rows r start end
      duration given st d m e ne old h =
    let (_, eq) = allocate-eq-assigned rounds p mac requested hostname now ip q given in
    let (n, fresh, eq') = start_pool-eq-ok start end duration rows later restarted h in
    (
      ap (λ (x : LeasePool). x.store) eq
          ∙ store-assign p mac ip hostname now
          ∙ ap
              (λ s.
                persist s (record {
                  mac = mac;
                  ip = ip;
                  hostname = hostname;
                  expires_at = now + p.duration;
                }))
              st
          ∙ persist_blocked rows _ r m e ne,
      ap (λ (x : LeasePool). x.by_ip ip) eq'
          ∙ restore_all_ip n (active_leases later rows) ip (
              subst (λ x. All (λ s. s.ip ≢ x) (active_leases later rows)) e
                (dropped _ rows r d m (ground arith)))
          ∙ new-by_ip start end duration rows n ip fresh,
    )
