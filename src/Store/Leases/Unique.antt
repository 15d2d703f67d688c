-- ===== src/Store/Leases/Unique.antt =====
-- The constraints of dhcp_leases: backend/internal/store/leases.go and the migration 0002.
use helboot.Prelude.{
  ℕ, String, ◌≡◌, refl, ◌≢◌, Bool, true, false, List, [], ◌∷◌, none, some, arith, eq_iff, ◌==◌,
  String_eq, if◌then◌else◌, All, Any, keep, Bool-cases, inl, inr, ◌⊎◌,
}
use helboot.Time.{Time, format_time}
use helboot.Store.Leases.{
  Lease, ip_taken, write_row, upsert_lease, active_leases, lease_by_mac, delete_lease,
}

-- PRIMARY KEY (mac) and UNIQUE (ip): of two rows neither column is the same.
abbrev pub Apart : Lease → Lease → Type 0
Apart r s = (r.mac ≢ s.mac) × (r.ip ≢ s.ip)

abbrev pub Distinct : List Lease → Type 0
Distinct [] = Unit
Distinct (r ∷ rows) = All (Apart r) rows × Distinct rows

All-keep :
    (P : Lease → Type 0) (f : Lease → Bool) (rows : List Lease) → All P rows → All P (keep f rows)
All-keep P f [] h = tt
All-keep P f (r ∷ rows) h = ground (arith, All-keep P f rows h.1)

Distinct-keep : (f : Lease → Bool) (rows : List Lease) → Distinct rows → Distinct (keep f rows)
Distinct-keep f [] h = tt
Distinct-keep f (r ∷ rows) h =
    ground (arith, Distinct-keep f rows h.1, All-keep (Apart r) f rows h.0)

pub active_leases-Distinct :
    (now : Time) (rows : List Lease) → Distinct rows → Distinct (active_leases now rows)
unfolding active_leases
active_leases-Distinct now rows h = Distinct-keep _ rows h

pub delete_lease-Distinct :
    (mac : String) (rows : List Lease) → Distinct rows → Distinct (delete_lease mac rows)
unfolding delete_lease
delete_lease-Distinct mac rows h = Distinct-keep _ rows h

All-write_row :
    (r l : Lease) (rows : List Lease)
    → Apart r l
    → All (Apart r) rows
    → All (Apart r) (write_row l rows)
unfolding write_row
All-write_row r l [] a h = (a, tt)
All-write_row r l (s ∷ rows) a h = ground (arith, All-write_row r l rows a h.1)

-- A row of another MAC on the address is all that makes `ip_taken` true.
pub ip_taken-Any :
    (rows : List Lease) (mac : String) (ip : ℕ)
    → ip_taken rows mac ip ≡ true
    → Any (λ r. (r.ip ≡ ip) × (r.mac ≢ mac)) rows
unfolding ip_taken
ip_taken-Any [] mac ip h = cc
ip_taken-Any (r ∷ rows) mac ip h = elim (Bool-cases (ip_taken rows mac ip)) [
  | inl t ↦ inr (ip_taken-Any rows mac ip t)
  | inr t ↦ inl (ground arith, λ e. ground (arith, eq_iff r.mac mac))
]

pub Any-ip_taken :
    (rows : List Lease) (mac : String) (ip : ℕ)
    → Any (λ r. (r.ip ≡ ip) × (r.mac ≢ mac)) rows
    → ip_taken rows mac ip ≡ true
unfolding ip_taken
Any-ip_taken [] mac ip h = absurd h
Any-ip_taken (r ∷ rows) mac ip (inl h) = ground (arith, eq_iff r.mac mac)
Any-ip_taken (r ∷ rows) mac ip (inr h) = ground (arith, Any-ip_taken rows mac ip h)

-- Writing over the row of the MAC: the rest stays apart from the new row.
All-overwrite :
    (r l : Lease) (rows : List Lease)
    → r.mac ≡ l.mac
    → ip_taken rows l.mac l.ip ≡ false
    → All (Apart r) rows
    → All (Apart l) rows
unfolding ip_taken
All-overwrite r l [] e t h = tt
All-overwrite r l (s ∷ rows) e t h = (
  (λ q. h.0.0 (ground arith), λ q. h.0.0 (ground (arith, eq_iff s.mac l.mac))),
  All-overwrite r l rows e (ground arith) h.1,
)

write_row-Distinct :
    (l : Lease) (rows : List Lease)
    → ip_taken rows l.mac l.ip ≡ false
    → Distinct rows
    → Distinct (write_row l rows)
unfolding write_row ip_taken
write_row-Distinct l [] t h = (tt, tt)
write_row-Distinct l (r ∷ rows) t h = elim (Bool-cases (r.mac == l.mac)) [
  | inl same ↦
      rw same (All-overwrite r l rows ((eq_iff r.mac l.mac).0 same) (ground arith) h.0, h.1)
  | inr other ↦ rw other (
    All-write_row r l rows (λ e. ground (arith, eq_iff r.mac l.mac), λ e. ground arith) h.0,
    write_row-Distinct l rows (ground arith) h.1,
  )
]

-- An upsert that succeeds keeps the columns of the table distinct.
pub upsert_lease-Distinct :
    (l : Lease) (rows rows' : List Lease)
    → Distinct rows
    → upsert_lease l rows ≡ some rows'
    → Distinct rows'
unfolding upsert_lease
upsert_lease-Distinct l rows rows' h e =
    ground (arith, write_row-Distinct (record l { expires_at = format_time l.expires_at }) rows)

-- Reading a row back after an upsert, for every MAC.
lease_by_mac-write_row :
    (l : Lease) (rows : List Lease) (mac : String)
    → lease_by_mac mac (write_row l rows) ≡ (if l.mac == mac then some l else lease_by_mac mac rows)
unfolding lease_by_mac write_row
lease_by_mac-write_row l [] mac = refl
lease_by_mac-write_row l (r ∷ rows) mac = ground (
  arith,
  eq_iff l.mac mac,
  eq_iff r.mac mac,
  eq_iff r.mac l.mac,
  lease_by_mac-write_row l rows mac,
)

-- An upsert fails exactly when the row of another MAC has the address. Otherwise the MAC reads
-- back as the new row, its expiry cut to whole seconds, and every other MAC reads back as before.
pub upsert_lease_lem :
    (l : Lease) (rows : List Lease)
    → ((upsert_lease l rows ≡ none) × Any (λ r. (r.ip ≡ l.ip) × (r.mac ≢ l.mac)) rows)
      ⊎ ((rows' : List Lease) × (upsert_lease l rows ≡ some rows')
          × ((mac : String)
              → lease_by_mac mac rows' ≡ (
                  if l.mac == mac
                  then some (record l { expires_at = format_time l.expires_at })
                  else lease_by_mac mac rows)))
unfolding upsert_lease
upsert_lease_lem l rows = elim (Bool-cases (ip_taken rows l.mac l.ip)) [
  | inl t ↦ inl (rw t, ip_taken-Any rows l.mac l.ip t)
  | inr t ↦ inr (_, rw t, lease_by_mac-write_row _ rows)
]
