-- ===== src/Store/Users/Keeping.antt =====
-- The statements on users keep an administrator: backend/internal/store/users.go.
use helboot.Prelude.{
  ℕ, ◌+◌, ◌≤◌, String, ◌≡◌, refl, Bool, true, false, not, ◌⊎◌, inl, inr, List, [], ◌∷◌, arith, ◌==◌,
  ℕ_eq, keep,
}
use helboot.Time.{Time}
use helboot.Model.{Role, User}
use helboot.Store.Db.{Db, ok, count_if, change}
use helboot.Store.Db.Counting.{count_if-keep}
use helboot.Store.Users.{
  is_admin, user_by_id, create_user, count_admins, update_user_role, update_user_password,
  delete_user,
}
use helboot.Store.Users.Staff.{
  has_id, admin_user, Staffed, both, count_both, count_both_none, count_lost_change,
  count_lost_keep, count_fresh, given_later, given_keep, given_change, count_id_change,
}

pub create_user-Staffed :
    (db db' : Db) (username hash locale : String) (role : Role) (now : Time) (u : User)
    → create_user db username hash role locale now ≡ ok (u, db')
    → Staffed db
    → Staffed db'
unfolding create_user count_admins
create_user-Staffed db db' username hash locale role now u h v =
    let last = db.last_user in
    let rows : db'.users ≡ u ∷ db.users = ground arith in
    let counter : db'.last_user ≡ last + 1 = ground arith in
    let old = given_later last db'.last_user db.users (omega arith) v.given in
    let few = v.staffed in
    let id : u.id ≡ last + 1 = ground arith in
    record {
      single = λ k.
          let one = v.single k in
          let same = (ℕ_eq.equals_iff (last + 1) k).0 in
          let fresh = count_fresh last k db.users v.given in ground arith;
      given = rw rows (omega arith, old);
      staffed = ground arith;
    }

-- An administrator may lose the role, or go, only where another one is left.
unfoldable pub Spared : Db → User → Type 0
Spared db u = (admin_user u ≡ false) ⊎ (2 ≤ count_admins db)

lost :
    (db : Db) (id : ℕ) (target : User)
    → user_by_id db id ≡ ok target
    → Staffed db
    → Spared db target
    → count_if (both (has_id id) admin_user) db.users + 1 ≤ count_admins db
unfolding Spared user_by_id count_admins
lost db id target found v (inl h) =
    let few = v.single id in
    let some_admin = v.staffed in
    let nothing = count_both_none (has_id id) admin_user db.users target few in ground arith
lost db id target found v (inr h) =
    let few = v.single id in let one = count_both (has_id id) admin_user db.users in ground arith

-- Rows that become administrators are not lost to the count.
promoted :
    (p : User → Bool) (role : Role) (us : List User)
    → is_admin role ≡ true
    → count_if admin_user us ≤ count_if admin_user (change p (λ u. record u { role = role }) us)
promoted p role [] h = omega arith
promoted p role (u ∷ us) h = ground (arith, promoted p role us h)

role_change_keeps :
    (db : Db) (id : ℕ) (role : Role) (target : User)
    → user_by_id db id ≡ ok target
    → (is_admin role ≡ true) ⊎ Spared db target
    → Staffed db
    → 1 ≤ count_if admin_user (change (has_id id) (λ u. record u { role = role }) db.users)
unfolding count_admins
role_change_keeps db id role target found (inl h) v =
    let some_admin = v.staffed in let more = promoted (has_id id) role db.users h in omega arith
role_change_keeps db id role target found (inr h) v =
    let left = lost db id target found v h in
    let all = count_lost_change (has_id id) admin_user (λ u. record u { role = role }) db.users in
    omega arith

admins_change :
    (us : List User) (id : ℕ) (hash : String)
    → count_if admin_user (change (has_id id) (λ u. record u { password_hash = hash }) us)
      ≡ count_if admin_user us
admins_change [] id hash = refl
admins_change (u ∷ us) id hash = ground (arith, admins_change us id hash)

pub update_user_role-Staffed :
    (db db' : Db) (id : ℕ) (role : Role) (target : User)
    → user_by_id db id ≡ ok target
    → (is_admin role ≡ true) ⊎ Spared db target
    → update_user_role db id role ≡ ok db'
    → Staffed db
    → Staffed db'
unfolding update_user_role count_admins
update_user_role-Staffed db db' id role target found spared h v =
    let f : User → User = λ u. record u { role = role } in
    let kept = given_change db.last_user (has_id id) f db.users (λ u. refl) v.given in
    let rows : db'.users ≡ change (has_id id) f db.users = ground arith in
    let counter : db'.last_user ≡ db.last_user = ground arith in
    let some_admin = role_change_keeps db id role target found spared v in
    record {
      single = λ k.
          let one = v.single k in
          let s = count_id_change k (has_id id) f db.users (λ u. refl) in ground arith;
      given = rw (rows, counter) kept;
      staffed = ground arith;
    }

pub update_user_password-Staffed :
    (db db' : Db) (id : ℕ) (hash : String)
    → update_user_password db id hash ≡ ok db'
    → Staffed db
    → Staffed db'
unfolding update_user_password count_admins
update_user_password-Staffed db db' id hash h v =
    let f : User → User = λ u. record u { password_hash = hash } in
    let kept = given_change db.last_user (has_id id) f db.users (λ u. refl) v.given in
    let rows : db'.users ≡ change (has_id id) f db.users = ground arith in
    let counter : db'.last_user ≡ db.last_user = ground arith in
    let some_admin = admins_change db.users id hash in
    let before = v.staffed in
    record {
      single = λ k.
          let one = v.single k in
          let s = count_id_change k (has_id id) f db.users (λ u. refl) in ground arith;
      given = rw (rows, counter) kept;
      staffed = ground arith;
    }

pub delete_user-Staffed :
    (db db' : Db) (id : ℕ) (target : User)
    → user_by_id db id ≡ ok target
    → Spared db target
    → delete_user db id ≡ ok db'
    → Staffed db
    → Staffed db'
unfolding delete_user count_admins
delete_user-Staffed db db' id target found spared h v =
    let kept = given_keep db.last_user (λ u. not (u.id == id)) db.users v.given in
    let some_admin = lost db id target found v spared in
    let rows : db'.users ≡ keep (λ u. not (u.id == id)) db.users = ground arith in
    let counter : db'.last_user ≡ db.last_user = ground arith in
    let left = count_lost_keep (has_id id) admin_user db.users in
    record {
      single = λ k.
          let one = v.single k in
          let s = count_if-keep (has_id k) (λ u. not (u.id == id)) db.users in ground arith;
      given = rw (rows, counter) kept;
      staffed = ground arith;
    }
