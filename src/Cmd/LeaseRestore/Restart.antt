-- ===== src/Cmd/LeaseRestore/Restart.antt =====
-- What a restart keeps of the leases: buildDHCPServer of backend/cmd/helboot/services.go, with the
-- pool and the table.
use helboot.Prelude.{
  ℕ, ◌≤◌, ◌<◌, String, ◌≡◌, refl, ◌≢◌, Bool, true, List, [], ◌∷◌, none, some, arith, eq_iff, sym,
  ap, ◌∙◌, All, Any, inl, inr, Bool-cases, keep,
}
use helboot.Time.{Time, format_time}
use helboot.Store.Leases.{Lease, active_leases}
use helboot.Store.Leases.Unique.{Apart, Distinct, active_leases-Distinct}
use helboot.Network.Ip.{Ip, v4}
use helboot.Network.LeasePool.{
  LeasePool, NewResult, ok, err, new_lease_pool, restore, in_range, confirm,
}
use helboot.Network.LeasePool.Invariant.{Inv, restore-Inv}
use helboot.Network.LeasePool.Allocate.{lease}
use helboot.Network.LeasePool.History.{new-Inv}
use helboot.Cmd.LeaseRestore.{restore_all, start_pool}

-- None of the rows is in the pool yet.
abbrev Unheld : LeasePool → List Lease → Type 0
Unheld p = All (λ r. (p.by_mac r.mac ≡ none) × (p.by_ip r.ip ≡ none))

restore-Unheld :
    (p : LeasePool) (r : Lease) (rows : List Lease)
    → All (Apart r) rows
    → Unheld p rows
    → Unheld (restore p r.mac (v4 r.ip) r.expires_at) rows
unfolding restore
restore-Unheld p r [] a u = tt
restore-Unheld p r (s ∷ rows) a u =
    ((ground (arith, eq_iff r.mac s.mac), ground arith), restore-Unheld p r rows a.1 u.1)

restore_all-Inv :
    (p : LeasePool) (rows : List Lease)
    → Inv p
    → Distinct rows
    → Unheld p rows
    → Inv (restore_all p rows)
unfolding restore_all
restore_all-Inv p [] v d u = v
restore_all-Inv p (r ∷ rows) v d u =
    restore_all-Inv (restore p r.mac (v4 r.ip) r.expires_at) rows
      (restore-Inv p r.mac r.ip r.expires_at v u.0.0 u.0.1) d.1 (restore-Unheld p r rows d.0 u.1)

in_range-restore :
    (p : LeasePool) (mac : String) (ip : ℕ) (expires : Time) (n : ℕ)
    → in_range (restore p mac (v4 ip) expires) n ≡ in_range p n
unfolding restore
in_range-restore p mac ip expires n = ground arith

-- A MAC or an address that no row names stays as it was.
restore_all_mac :
    (p : LeasePool) (rows : List Lease) (mac : String)
    → All (λ r. r.mac ≢ mac) rows
    → (restore_all p rows).by_mac mac ≡ p.by_mac mac
unfolding restore_all restore
restore_all_mac p [] mac h = refl
restore_all_mac p (r ∷ rows) mac h =
    ground (
      arith,
      eq_iff r.mac mac,
      restore_all_mac (restore p r.mac (v4 r.ip) r.expires_at) rows mac h.1,
    )

pub restore_all_ip :
    (p : LeasePool) (rows : List Lease) (ip : ℕ)
    → All (λ r. r.ip ≢ ip) rows
    → (restore_all p rows).by_ip ip ≡ p.by_ip ip
unfolding restore_all restore
restore_all_ip p [] ip h = refl
restore_all_ip p (r ∷ rows) ip h =
    ground (arith, restore_all_ip (restore p r.mac (v4 r.ip) r.expires_at) rows ip h.1)

Apart-macs : (r : Lease) (rows : List Lease) → All (Apart r) rows → All (λ s. s.mac ≢ r.mac) rows
Apart-macs r [] h = tt
Apart-macs r (s ∷ rows) h = (λ e. h.0.0 (cc), Apart-macs r rows h.1)

restore_mac :
    (p : LeasePool) (mac : String) (ip : ℕ) (expires : Time)
    → in_range p ip ≡ true
    → (restore p mac (v4 ip) expires).by_mac mac ≡ some (lease mac ip expires)
unfolding restore
restore_mac p mac ip expires i = ground (arith, eq_iff mac mac)

restore_all_entry :
    (p : LeasePool) (rows : List Lease) (r : Lease)
    → Distinct rows
    → Any (λ s. s ≡ r) rows
    → in_range p r.ip ≡ true
    → (restore_all p rows).by_mac r.mac ≡ some (lease r.mac r.ip r.expires_at)
unfolding restore_all
restore_all_entry p [] r d m i = absurd m
restore_all_entry p (s ∷ rows) r d (inl e) i = ground (
  arith,
  restore_mac p s.mac s.ip s.expires_at,
  restore_all_mac (restore p s.mac (v4 s.ip) s.expires_at) rows s.mac (Apart-macs s rows d.0),
)
restore_all_entry p (s ∷ rows) r d (inr m) i =
    restore_all_entry (restore p s.mac (v4 s.ip) s.expires_at) rows r d.1 m (rw in_range-restore i)

Any-keep :
    (f : Lease → Bool) (rows : List Lease) (r : Lease)
    → f r ≡ true
    → Any (λ s. s ≡ r) rows
    → Any (λ s. s ≡ r) (keep f rows)
Any-keep f [] r t m = m
Any-keep f (s ∷ rows) r t (inl e) = let t' : f s ≡ true = cc in rw t' (inl e)
Any-keep f (s ∷ rows) r t (inr m) = elim (Bool-cases (f s)) [
  | inl a ↦ rw a (inr (Any-keep f rows r t m))
  | inr a ↦ rw a (Any-keep f rows r t m)
]

pool_of :
    (n : NewResult) (f : LeasePool → LeasePool) (q : LeasePool)
    → (elim n [ err e ↦ err e | ok p ↦ ok (f p) ]) ≡ ok q
    → (p : LeasePool) × (n ≡ ok p) × (q ≡ f p)
pool_of (ok p) f q h = (p, refl, ground arith)
pool_of (err e) f q h = absurd (ground arith)

-- The new pool that start_pool restores the running leases into.
pub start_pool-eq-ok :
    (start end : Ip) (duration : ℕ) (rows : List Lease) (now : Time) (q : LeasePool)
    → start_pool start end duration rows now ≡ ok q
    → (p : LeasePool) × (new_lease_pool start end duration (some rows) ≡ ok p)
      × (q ≡ restore_all p (active_leases now rows))
unfolding start_pool
start_pool-eq-ok start end duration rows now q h =
    pool_of (new_lease_pool start end duration (some rows)) _ q h

pub new-by_ip :
    (start end : Ip) (duration : ℕ) (rows : List Lease) (p : LeasePool) (n : ℕ)
    → new_lease_pool start end duration (some rows) ≡ ok p
    → p.by_ip n ≡ none
unfolding new_lease_pool
new-by_ip start end duration rows p n h = ground arith

new-Unheld :
    (start end : Ip) (duration : ℕ) (rows : List Lease) (p : LeasePool) (rs : List Lease)
    → new_lease_pool start end duration (some rows) ≡ ok p
    → Unheld p rs
unfolding new_lease_pool
new-Unheld start end duration rows p [] h = tt
new-Unheld start end duration rows p (r ∷ rs) h =
    ((ground arith, ground arith), new-Unheld start end duration rows p rs h)

in_range-restore_all :
    (p : LeasePool) (rows : List Lease) (n : ℕ) → in_range (restore_all p rows) n ≡ in_range p n
unfolding restore_all
in_range-restore_all p [] n = refl
in_range-restore_all p (r ∷ rows) n =
    in_range-restore_all (restore p r.mac (v4 r.ip) r.expires_at) rows n
    ∙ in_range-restore p r.mac r.ip r.expires_at n

module _ (start end : Ip) (duration : ℕ) (rows : List Lease) (now : Time) (q : LeasePool)
    (d : Distinct rows) (h : start_pool start end duration rows now ≡ ok q) where
  -- The pool built from a table with distinct columns has maps that agree, on addresses of the
  -- range.
  pub start_pool-Inv : Inv q
  start_pool-Inv =
      let (p, e, eq) = start_pool-eq-ok start end duration rows now q h in
      rw eq (
        restore_all-Inv p (active_leases now rows) (new-Inv start end duration (some rows) p e)
          (active_leases-Distinct now rows d)
          (new-Unheld start end duration rows p (active_leases now rows) e))

  -- A client whose row still runs, on an address of the range, keeps its address over the restart:
  -- its DHCPREQUEST is confirmed until the row expires. The table's columns are distinct.
  pub start_pool_confirms :
      (r : Lease) (t : Time)
      → Any (λ s. s ≡ r) rows
      → format_time now < r.expires_at
      → in_range q r.ip ≡ true
      → t ≤ r.expires_at
      → confirm q r.mac (v4 r.ip) t ≡ true
  unfolding confirm active_leases
  start_pool_confirms r t m live i fresh =
      let (p, e, eq) = start_pool-eq-ok start end duration rows now q h in
      let held : q.by_mac r.mac ≡ some (lease r.mac r.ip r.expires_at) = rw eq (
        restore_all_entry p (active_leases now rows) r (active_leases-Distinct now rows d)
          (Any-keep _ rows r (ground arith) m)
          (sym (in_range-restore_all p (active_leases now rows) r.ip)
            ∙ ap (λ (x : LeasePool). in_range x r.ip) (sym eq)
            ∙ i)) in
      ground arith
