-- ===== src/Logging/Slots.antt =====
-- Which slot of the ring of backend/internal/logging/ring.go holds which entry.
use native.Mathlib.Nat.{add-mod_right, mod-eq_of_lt, mod_self}
use helboot.Prelude.{
  ℕ, zero, suc, ◌+◌, ◌-◌, ◌%◌, ◌≤◌, ◌<◌, ◌≡◌, refl, ap, ◌∙◌, ◌⊎◌, inl, inr, true, false, List, [],
  ◌∷◌, Option, none, some, arith, ltb, ◌==◌, ℕ_eq, if◌then◌else◌, length, Bool-cases, ◌≢◌, sym,
}
use helboot.Logging.{Entry, Ring, new_ring, append, buffered, slot_of}

-- The ring after the entries of the list, whose newest one stands first.
unfoldable pub recorded : ℕ → List Entry → Ring
recorded size [] = new_ring size
recorded size (e ∷ older) = append (recorded size older) e

unfoldable pub nth {ℓ} : {A : Type ℓ} → ℕ → List A → Option A
nth i [] = none
nth zero (x ∷ xs) = some x
nth (suc i) (x ∷ xs) = nth i xs

slot_low : (r : Ring) (i : ℕ) → r.next < r.size → i + 1 ≤ r.next → slot_of r i + (i + 1) ≡ r.next
unfolding slot_of
slot_low r i less low =
    let k = r.next - (i + 1) in
    let sum : r.next + r.size - (i + 1) ≡ k + r.size = omega arith in
    let small = mod-eq_of_lt {n = k} {m = r.size} (omega arith) in
    let at : slot_of r i ≡ k = ap (λ x. x % r.size) sum ∙ add-mod_right k r.size ∙ small in
    omega (arith, at)

slot_high :
    (r : Ring) (i : ℕ) → r.next < i + 1 → i < r.size → slot_of r i + (i + 1) ≡ r.next + r.size
unfolding slot_of
slot_high r i high less =
    let k = r.next + r.size - (i + 1) in
    let small = mod-eq_of_lt {n = k} {m = r.size} (omega arith) in omega (arith, small)

-- The ring holds the newest entries of the list.
pub record Holds (r : Ring) (h : List Entry) : Type 0 where
  pub below : r.next < r.size
  pub not_full : r.full ≡ false → r.next ≡ length h
  pub is_full : r.full ≡ true → r.size ≤ length h
  pub stored : (i : ℕ) → i < buffered r → nth i h ≡ some (r.slots (slot_of r i))

next_append :
    (r : Ring)
    → r.next < r.size
    → ((r.next + 1 ≡ r.size) × ((r.next + 1) % r.size ≡ 0))
      ⊎ ((r.next + 1 < r.size) × ((r.next + 1) % r.size ≡ r.next + 1))
next_append r less = go (r.next + 1) refl
  where
    last : (k : ℕ) → k ≤ r.size → (k ≡ r.size) ⊎ (k < r.size)
    last k le = ground arith

    go :
        (k : ℕ)
        → k ≡ r.next + 1
        → ((k ≡ r.size) × (k % r.size ≡ 0)) ⊎ ((k < r.size) × (k % r.size ≡ k))
    go k e = elim (last k (omega arith)) [
      | inl same ↦ inl (same, rw same (mod_self r.size))
      | inr small ↦ inr (small, mod-eq_of_lt small)
    ]

newest_slot : (r : Ring) (e : Entry) → r.next < r.size → slot_of (append r e) 0 ≡ r.next
unfolding append
newest_slot r e less = elim (next_append r less) [
  | inl (same, at) ↦
      let high = slot_high (append r e) 0 (omega (arith, at)) (omega arith) in
      omega (arith, at, high)
  | inr (small, at) ↦
      let low = slot_low (append r e) 0 (omega (arith, at)) (omega (arith, at)) in
      omega (arith, at, low)
]

-- The i-th newest entry becomes the next older one, and is not overwritten.
older_slot :
    (r : Ring) (e : Entry) (i : ℕ)
    → r.next < r.size
    → suc i < r.size
    → (slot_of (append r e) (suc i) ≡ slot_of r i) × (slot_of r i ≢ r.next)
unfolding append
older_slot r e i less room = elim (next_append r less) [
  | inl (same, at) ↦
      let high = slot_high (append r e) (suc i) (omega (arith, at)) (omega arith) in
      let low = slot_low r i less (omega arith) in
      (omega (arith, at, high, low), λ q. omega (arith, low, q))
  | inr (small, at) ↦ elim (low_or_high (suc i) r.next) [
    | inl le ↦
        let low' = slot_low (append r e) (suc i) (omega (arith, at)) (omega (arith, at)) in
        let low = slot_low r i less (omega (arith, le)) in
        (omega (arith, at, low', low), λ q. omega (arith, low, q))
    | inr gt ↦
        let high' = slot_high (append r e) (suc i) (omega (arith, at)) (omega arith) in
        let high = slot_high r i (omega (arith, gt)) (omega arith) in
        (omega (arith, at, high', high), λ q. omega (arith, high, q))
  ]
]
  where
    low_or_high : (a b : ℕ) → (a ≤ b) ⊎ (b < a)
    low_or_high a b = ground arith

buffered-append :
    (r : Ring) (e : Entry) (i : ℕ)
    → r.next < r.size
    → suc i < buffered (append r e)
    → (suc i < r.size) × (i < buffered r)
unfolding append buffered
buffered-append r e i less h = elim (next_append r less) [
  | inl (same, at) ↦ ground arith
  | inr (small, at) ↦ ground arith
]

overwritten :
    (r : Ring) (e : Entry) (k l : ℕ) → k ≡ l → l ≢ r.next → (append r e).slots k ≡ r.slots l
unfolding append
overwritten r e k l same apart = ap (append r e).slots same ∙ elim (Bool-cases (l == r.next)) [
  | inl hit ↦ absurd (apart ((ℕ_eq.equals_iff l r.next).0 hit))
  | inr miss ↦ rw miss refl
]

append-stored :
    (r : Ring) (h : List Entry) (e : Entry) (i : ℕ)
    → Holds r h
    → i < buffered (append r e)
    → nth i (e ∷ h) ≡ some ((append r e).slots (slot_of (append r e) i))
unfolding append nth
append-stored r h e zero v less =
    let at = newest_slot r e v.below in
    let same = (ℕ_eq.equals_iff (slot_of (append r e) 0) r.next).1 at in ground arith
append-stored r h e (suc i) v less =
    let (room, old) = buffered-append r e i v.below less in
    let (at, apart) = older_slot r e i v.below room in
    let was = v.stored i old in
    let kept : (append r e).slots (slot_of (append r e) (suc i)) ≡ r.slots (slot_of r i) =
      overwritten r e (slot_of (append r e) (suc i)) (slot_of r i) at apart in
    was ∙ ap some (sym kept)

append-Holds : (r : Ring) (h : List Entry) (e : Entry) → Holds r h → Holds (append r e) (e ∷ h)
unfolding append
append-Holds r h e v = record {
  below = elim (next_append r v.below) [
    | inl (same, at) ↦ omega (arith, at)
    | inr (small, at) ↦ omega (arith, at)
  ];
  not_full = λ f. elim (next_append r v.below) [
    | inl (same, at) ↦ absurd (ground arith)
    | inr (small, at) ↦ let n = v.not_full in ground arith
  ];
  is_full = λ f. elim (next_append r v.below) [
    | inl (same, at) ↦ let n = v.not_full in let m = v.is_full in ground arith
    | inr (small, at) ↦ let m = v.is_full in ground arith
  ];
  stored = λ i less. append-stored r h e i v less;
}

new-Holds : (size : ℕ) → Holds (new_ring size) []
unfolding new_ring buffered
new-Holds size = record {
  below = ground arith;
  not_full = λ f. refl;
  is_full = λ f. absurd (ground arith);
  stored = λ i less. absurd (ground arith);
}

pub recorded-Holds : (size : ℕ) (h : List Entry) → Holds (recorded size h) h
unfolding recorded
recorded-Holds size [] = new-Holds size
recorded-Holds size (e ∷ older) =
    append-Holds (recorded size older) older e (recorded-Holds size older)

pub recorded_size :
    (size : ℕ) (h : List Entry) → (recorded size h).size ≡ (if ltb size 1 then 1 else size)
unfolding recorded append new_ring
recorded_size size [] = refl
recorded_size size (e ∷ older) = recorded_size size older
