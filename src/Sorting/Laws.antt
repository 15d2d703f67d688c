-- ===== src/Sorting/Laws.antt =====
-- What sorting by a text gives.
use Prim.Native.Char.{Char, code}
use Prim.Native.Nat.{Ordering, compare as compare_ℕ}
use Prim.Native.String.{compare, then}
use Prim.Native.String.compare
use text.Mathlib.TextPositions.{compare_refl}
use helboot.Prelude.{
  String, ◌≡◌, ◌≢◌, refl, true, false, List, [], ◌∷◌, some, arith, ◌==◌, String_eq, Bool-cases, inl,
  inr, if◌then◌else◌, first,
}
use helboot.Sorting.{text_lt, insert_sorted, sort_by}

cons-nil : (c : Char) (s : String) → compare (String.◌∷◌ c s) "" ≡ Ordering.gt
cons-nil c s = λ i. compare.cons-nil c s i

cons-cons :
    (c d : Char) (s t : String)
    → compare (String.◌∷◌ c s) (String.◌∷◌ d t) ≡ (then) (compare_ℕ (code c) (code d)) (compare s t)
cons-cons c d s t = λ i. compare.cons-cons c d s t i

compare_asym : (s t : String) → compare s t ≡ Ordering.lt → compare t s ≢ Ordering.lt
compare_asym String.[] String.[] h = λ e. ground (arith, compare_refl "")
compare_asym String.[] (String.◌∷◌ d t) h = λ e. ground (arith, cons-nil d t)
compare_asym (String.◌∷◌ c s) String.[] h = absurd (ground (arith, cons-nil c s))
compare_asym (String.◌∷◌ c s) (String.◌∷◌ d t) h =
    ground (arith, compare_asym s t, cons-cons c d s t, cons-cons d c t s)

text_lt_asym : (a b : String) → text_lt a b ≡ true → text_lt b a ≡ false
unfolding text_lt
text_lt_asym a b h = ground (arith, compare_asym a b)

text_lt_ne : (a b : String) → text_lt a b ≡ true → (a == b) ≡ false
unfolding text_lt
text_lt_ne a b h = ground arith

module _ {ℓ} {A : Type ℓ} (key : A → String) where
  -- No element stands before one with a smaller key.
  abbrev pub IsSorted : List A → Type 0
  IsSorted [] = Unit
  IsSorted (m ∷ []) = Unit
  IsSorted (m ∷ p ∷ ps) = (text_lt (key p) (key m) ≡ false) × IsSorted (p ∷ ps)

  insert_sorted-IsSorted : (m : A) (ms : List A) → IsSorted ms → IsSorted (insert_sorted key m ms)
  unfolding insert_sorted
  insert_sorted-IsSorted m [] h = tt
  insert_sorted-IsSorted m (p ∷ []) h = elim (Bool-cases (text_lt (key p) (key m))) [
    | inl e ↦ rw e (text_lt_asym (key p) (key m) e, tt)
    | inr e ↦ rw e (e, tt)
  ]
  insert_sorted-IsSorted m (p ∷ q ∷ ps) h = elim (Bool-cases (text_lt (key p) (key m))) [
    | inr e ↦ rw e (e, h)
    | inl e ↦ elim (Bool-cases (text_lt (key q) (key m))) [
      | inl k ↦ rw (e, k) (h.0, rw k at (insert_sorted-IsSorted m (q ∷ ps) h.1))
      | inr k ↦
          rw (e, k)
            (text_lt_asym (key p) (key m) e, rw k at (insert_sorted-IsSorted m (q ∷ ps) h.1))
    ]
  ]

  first-insert_sorted :
      (m : A) (ms : List A) (k : String)
      → first (λ x. key x == k) (insert_sorted key m ms)
        ≡ (if key m == k then some m else first (λ x. key x == k) ms)
  unfolding insert_sorted
  first-insert_sorted m [] k = refl
  first-insert_sorted m (p ∷ ps) k =
      let differ = text_lt_ne (key p) (key m) in
      let same = (String_eq.equals_iff (key p) k).0 in
      let same' = (String_eq.equals_iff (key m) k).0 in
      let same'' = (String_eq.equals_iff (key p) (key m)).1 in
      ground (arith, first-insert_sorted m ps k)

  -- The result is sorted, and a search for a key finds in it what it finds in the list.
  pub sort_by-IsSorted : (ms : List A) → IsSorted (sort_by key ms)
  unfolding sort_by
  sort_by-IsSorted [] = tt
  sort_by-IsSorted (m ∷ ms) = insert_sorted-IsSorted m (sort_by key ms) (sort_by-IsSorted ms)

  pub first-sort_by :
      (ms : List A) (k : String)
      → first (λ x. key x == k) (sort_by key ms) ≡ first (λ x. key x == k) ms
  unfolding sort_by
  first-sort_by [] k = refl
  first-sort_by (m ∷ ms) k =
      ground (arith, first-insert_sorted m (sort_by key ms) k, first-sort_by ms k)
