-- ===== src/Store/Users/Staff.antt =====
-- The administrators among the users, and what the statements of
-- backend/internal/store/users.go make of them.
use helboot.Prelude.{
  ℕ, ◌+◌, ◌≤◌, ◌≡◌, refl, Bool, false, not, ◌&&◌, List, [], ◌∷◌, some, arith, ◌==◌, ℕ_eq, first,
  keep, All,
}
use helboot.Model.{User}
use helboot.Store.Db.{Db, count_if, change}
use helboot.Store.Users.{is_admin, count_admins}

abbrev pub has_id : ℕ → User → Bool
has_id k u = u.id == k

abbrev pub admin_user : User → Bool
admin_user u = is_admin u.role

-- Identifiers are given once, and there is an administrator.
pub record Staffed (db : Db) : Type 0 where
  pub single : (k : ℕ) → count_if (has_id k) db.users ≤ 1
  pub given : All (λ u. u.id ≤ db.last_user) db.users
  pub staffed : 1 ≤ count_admins db

module _ {A : Type 0} (p q : A → Bool) where
  unfoldable pub both : A → Bool
  both x = p x && q x

  pub count_both : (xs : List A) → count_if both xs ≤ count_if p xs
  unfolding both
  count_both [] = omega arith
  count_both (x ∷ xs) = ground (arith, count_both xs)

  pub count_both_none :
      (xs : List A) (x : A)
      → count_if p xs ≤ 1
      → first p xs ≡ some x
      → q x ≡ false
      → count_if both xs ≡ 0
  unfolding both
  count_both_none [] x few found h = refl
  count_both_none (y ∷ ys) x few found h = ground (arith, count_both_none ys x, count_both ys)

  -- Only a row that passes both tests is lost to the count.
  pub count_lost_change :
      (f : A → A) (xs : List A) → count_if q xs ≤ count_if q (change p f xs) + count_if both xs
  unfolding both
  count_lost_change f [] = omega arith
  count_lost_change f (x ∷ xs) = ground (arith, count_lost_change f xs)

  pub count_lost_keep :
      (xs : List A) → count_if q xs ≤ count_if q (keep (λ x. not (p x)) xs) + count_if both xs
  unfolding both
  count_lost_keep [] = omega arith
  count_lost_keep (x ∷ xs) = ground (arith, count_lost_keep xs)

-- No row has an identifier that was not given yet.
pub count_fresh :
    (n k : ℕ) (us : List User) → All (λ u. u.id ≤ n) us → n + 1 ≤ k → count_if (has_id k) us ≡ 0
count_fresh n k [] h less = refl
count_fresh n k (u ∷ us) (h, hs) less =
    let same = (ℕ_eq.equals_iff u.id k).0 in ground (arith, count_fresh n k us hs less)

pub given_later :
    (n m : ℕ) (us : List User) → n ≤ m → All (λ u. u.id ≤ n) us → All (λ u. u.id ≤ m) us
given_later n m [] le h = tt
given_later n m (u ∷ us) le (h, hs) = (omega arith, given_later n m us le hs)

pub given_keep :
    (n : ℕ) (p : User → Bool) (us : List User)
    → All (λ u. u.id ≤ n) us
    → All (λ u. u.id ≤ n) (keep p us)
given_keep n p [] h = tt
given_keep n p (u ∷ us) (h, hs) = ground (arith, given_keep n p us hs)

pub given_change :
    (n : ℕ) (p : User → Bool) (f : User → User) (us : List User)
    → ((u : User) → (f u).id ≡ u.id)
    → All (λ u. u.id ≤ n) us
    → All (λ u. u.id ≤ n) (change p f us)
given_change n p f [] same h = tt
given_change n p f (u ∷ us) same (h, hs) = ground (arith, same u, given_change n p f us same hs)

pub count_id_change :
    (k : ℕ) (p : User → Bool) (f : User → User) (us : List User)
    → ((u : User) → (f u).id ≡ u.id)
    → count_if (has_id k) (change p f us) ≡ count_if (has_id k) us
count_id_change k p f [] same = refl
count_id_change k p f (u ∷ us) same = ground (arith, same u, count_id_change k p f us same)
