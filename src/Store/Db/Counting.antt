-- ===== src/Store/Db/Counting.antt =====
-- How the statements of backend/internal/store change a count of rows.
use helboot.Prelude.{
  if◌then◌else◌, ◌≤◌, ◌≡◌, refl, Bool, true, false, List, [], ◌∷◌, some, none, arith, first, keep,
  Bool-cases, inl, inr,
}
use helboot.Store.Db.{count_if, change, exists}

module _ {ℓ} {A : Type ℓ} (q : A → Bool) where
  pub count_if-keep : (p : A → Bool) (xs : List A) → count_if q (keep p xs) ≤ count_if q xs
  count_if-keep p [] = omega arith
  count_if-keep p (x ∷ xs) = ground (arith, count_if-keep p xs)

  -- A change that makes no new row count.
  pub count_if-change :
      (p : A → Bool) (f : A → A) (xs : List A)
      → ((x : A) → p x ≡ true → q (f x) ≡ true → q x ≡ true)
      → count_if q (change p f xs) ≤ count_if q xs
  count_if-change p f [] h = omega arith
  count_if-change p f (x ∷ xs) h = ground (arith, h x, count_if-change p f xs h)

  pub count_if-first-none : (xs : List A) → first q xs ≡ none → count_if q xs ≡ 0
  count_if-first-none [] h = refl
  count_if-first-none (x ∷ xs) h = ground (arith, count_if-first-none xs)

  pub first_of_count : (xs : List A) → first q xs ≡ none → exists q xs ≡ false
  first_of_count [] h = refl
  first_of_count (x ∷ xs) h = ground (arith, first_of_count xs)

  pub count_of_first :
      (p : A → Bool) (xs : List A) (x : A) → first p xs ≡ some x → q x ≡ true → 1 ≤ count_if q xs
  count_of_first p [] x found h = absurd (ground arith)
  count_of_first p (y ∷ ys) x found h = ground (arith, count_of_first p ys x)

  -- Where at most one row counts, it is the one that a search finds.
  pub first_of_one :
      (p : A → Bool) (xs : List A) (x : A)
      → count_if q xs ≤ 1
      → first p xs ≡ some x
      → q x ≡ true
      → first q xs ≡ some x
  first_of_one p [] x few found h = cc
  first_of_one p (y ∷ ys) x few found h = ground (arith, first_of_one p ys x, count_of_first p ys x)

  -- What is found by one test is found by another that it passes, though perhaps not first.
  pub first_exists :
      (p : A → Bool) (xs : List A) (x : A)
      → first p xs ≡ some x
      → q x ≡ true
      → (y : A) × (first q xs ≡ some y)
  first_exists p [] x found h = absurd (ground arith)
  first_exists p (y ∷ ys) x found h = elim (Bool-cases (q y)) [
    | inl e ↦ (y, ground arith)
    | inr e ↦ let rest = first_exists p ys x in ground arith
  ]

  -- An update of the rows that the test selects, by a function that keeps the test.
  pub first-change_same :
      (f : A → A) (xs : List A) (x : A)
      → ((y : A) → q y ≡ true → q (f y) ≡ true)
      → first q xs ≡ some x
      → first q (change q f xs) ≡ some (f x)
  first-change_same f [] x keeps found = absurd (ground arith)
  first-change_same f (y ∷ ys) x keeps found =
      ground (arith, keeps y, first-change_same f ys x keeps)

  -- An update of rows that the search does not select, before or after it.
  pub first-change_other :
      (p : A → Bool) (f : A → A) (xs : List A)
      → ((y : A) → p y ≡ true → (q y ≡ false) × (q (f y) ≡ false))
      → first q (change p f xs) ≡ first q xs
  first-change_other p f [] apart = refl
  first-change_other p f (y ∷ ys) apart = ground (arith, apart y, first-change_other p f ys apart)

  pub exists_of_first :
      (p : A → Bool) (xs : List A) (x : A) → first p xs ≡ some x → q x ≡ true → exists q xs ≡ true
  exists_of_first p [] x found h = absurd (ground arith)
  exists_of_first p (y ∷ ys) x found h = ground (arith, exists_of_first p ys x)

  -- A search after a filter that what it finds passes.
  pub first-keep :
      (p : A → Bool) (xs : List A) (x : A)
      → first q xs ≡ some x
      → p x ≡ true
      → first q (keep p xs) ≡ some x
  first-keep p [] x found h = absurd (ground arith)
  first-keep p (y ∷ ys) x found h = ground (arith, first-keep p ys x)

  -- A search after an update that keeps the test.
  pub first-change :
      (p : A → Bool) (f : A → A) (xs : List A) (x : A)
      → ((y : A) → q (f y) ≡ q y)
      → first q xs ≡ some x
      → first q (change p f xs) ≡ some (if p x then f x else x)
  first-change p f [] x same found = absurd (ground arith)
  first-change p f (y ∷ ys) x same found = ground (arith, same y, first-change p f ys x same)

  -- What is found in filtered rows passes the filter.
  pub first_kept : (p : A → Bool) (xs : List A) (x : A) → first q (keep p xs) ≡ some x → p x ≡ true
  first_kept p [] x found = absurd (ground arith)
  first_kept p (y ∷ ys) x found = ground (arith, first_kept p ys x)

  pub first-keep-none :
      (p : A → Bool) (xs : List A)
      → ((y : A) → q y ≡ true → p y ≡ false)
      → first q (keep p xs) ≡ none
  first-keep-none p [] apart = refl
  first-keep-none p (y ∷ ys) apart = ground (arith, apart y, first-keep-none p ys apart)

  -- A change that keeps what is searched for.
  pub first-change_kept :
      (p : A → Bool) (f : A → A) (xs : List A) (x : A)
      → ((y : A) → p y ≡ true → q (f y) ≡ q y)
      → first q xs ≡ some x
      → first q (change p f xs) ≡ some (if p x then f x else x)
  first-change_kept p f [] x h e = absurd (ground arith)
  first-change_kept p f (y ∷ ys) x h e = let k = h y in ground (arith, first-change_kept p f ys x h)
