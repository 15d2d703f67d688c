-- ===== src/Api/Users/LastAdmin.antt =====
-- The administrators under the handlers of backend/internal/api/handlers_users.go.
use helboot.Prelude.{
  ℕ, String, ◌≡◌, refl, Bool, true, false, not, ◌&&◌, ◌⊎◌, inl, inr, Option, none, some, arith,
  if◌then◌else◌, ltb, Bool-cases, ◌==◌, ℕ_eq, String_eq, byte_len,
}
use helboot.Time.{Time}
use helboot.Model.{Role, role_valid, User}
use helboot.Store.Db.{Db, Result, ok, err}
use helboot.Store.Users.{
  is_admin, user_by_id, user_by_username, create_user, count_admins, update_user_role,
  update_user_password, delete_user, add_audit,
}
use helboot.Store.Users.Staff.{Staffed, admin_user}
use helboot.Store.Users.Keeping.{
  Spared, create_user-Staffed, update_user_role-Staffed, update_user_password-Staffed,
  delete_user-Staffed,
}
use helboot.Api.Respond.{Handled, audit}
use helboot.Api.Respond.Keeps.{unless-keeps, path_id-keeps, decode_json-keeps, on_ok-keeps}
use helboot.Api.Users.{
  CreateUserRequest, min_password_length, or_internal, user_created, insert_user,
  handle_create_user, is_last_admin, role_updated, handle_update_user, password_updated,
  handle_set_user_password, not_verified, handle_change_own_password, user_deleted,
  handle_delete_user,
}

audit-Staffed :
    (db : Db) (u : User) (action entity : String) (id : ℕ)
    → Staffed db
    → Staffed (audit db (some u) action entity id)
unfolding audit add_audit count_admins
audit-Staffed db u action entity id v = record {
  single = v.single;
  given = v.given;
  staffed = v.staffed;
}

or_internal-Staffed :
    {A B : Type 0} (o : Option A) (db : Db) (k : A → Handled B)
    → Staffed db
    → ((a : A) → Staffed (k a).1)
    → Staffed (or_internal o db k).1
or_internal-Staffed none db k v h = v
or_internal-Staffed (some a) db k v h = h a

user_created-Staffed :
    (db : Db) (caller : User) (name hash locale : String) (role : Role) (now : Time)
    (r : Result (User × Db))
    → create_user db name hash role locale now ≡ r
    → Staffed db
    → Staffed (user_created db caller r).1
unfolding user_created
user_created-Staffed db caller name hash locale role now (err e) h v = v
user_created-Staffed db caller name hash locale role now (ok (u, db')) h v =
    audit-Staffed db' caller "user.create" "user" u.id
      (create_user-Staffed db db' name hash locale role now u h v)

insert_user-Staffed :
    (db : Db) (caller : User) (req : CreateUserRequest) (now : Time) (hash : Option String)
    (r : Result User)
    → Staffed db
    → Staffed (insert_user db caller req now hash r).1
unfolding insert_user
insert_user-Staffed db caller req now hash (ok u) v = v
insert_user-Staffed db caller req now hash (err e) v = or_internal-Staffed hash db _ v λ h.
    user_created-Staffed db caller req.username h (if req.locale == "" then "en" else req.locale)
      req.role now _ refl v

role_updated-Staffed :
    (db : Db) (caller target : User) (id : ℕ) (role : Role) (r : Result Db)
    → user_by_id db id ≡ ok target
    → (is_admin role ≡ true) ⊎ Spared db target
    → update_user_role db id role ≡ r
    → Staffed db
    → Staffed (role_updated db caller id r).1
unfolding role_updated
role_updated-Staffed db caller target id role (err e) found spared h v = v
role_updated-Staffed db caller target id role (ok db') found spared h v =
    let v' =
      audit-Staffed db' caller "user.update_role" "user" id
        (update_user_role-Staffed db db' id role target found spared h v) in
    on_ok-keeps Staffed (audit db' (some caller) "user.update_role" "user" id) v'
      (user_by_id (audit db' (some caller) "user.update_role" "user" id) id) _ _ (λ u e. v')

password_updated-Staffed :
    (db : Db) (caller : User) (id : ℕ) (action hash : String) (r : Result Db)
    → update_user_password db id hash ≡ r
    → Staffed db
    → Staffed (password_updated db caller id action r).1
unfolding password_updated
password_updated-Staffed db caller id action hash (err e) h v = v
password_updated-Staffed db caller id action hash (ok db') h v =
    audit-Staffed db' caller action "user" id (update_user_password-Staffed db db' id hash h v)

user_deleted-Staffed :
    (db : Db) (caller target : User) (id : ℕ) (r : Result Db)
    → user_by_id db id ≡ ok target
    → Spared db target
    → delete_user db id ≡ r
    → Staffed db
    → Staffed (user_deleted db caller id r).1
unfolding user_deleted
user_deleted-Staffed db caller target id (err e) found spared h v = v
user_deleted-Staffed db caller target id (ok db') found spared h v =
    audit-Staffed db' caller "user.delete" "user" id
      (delete_user-Staffed db db' id target found spared h v)

pub handle_create_user-Staffed :
    (hash_password : String → Option String) (db : Db) (caller : User)
    (body : Option CreateUserRequest) (now : Time)
    → Staffed db
    → Staffed (handle_create_user hash_password db caller body now).1
unfolding handle_create_user
handle_create_user-Staffed hash_password db caller body now v =
    decode_json-keeps Staffed db v body _ λ req.
      unless-keeps Staffed db v (ltb (byte_len req.username) 3) 400 "user.invalid_username" _ λ _.
        unless-keeps Staffed db v (ltb (byte_len req.password) min_password_length) 400
          "user.weak_password" _
          λ _. unless-keeps Staffed db v (not (role_valid req.role)) 400 "user.invalid_role" _ λ _.
            insert_user-Staffed db caller req now (hash_password req.password)
              (user_by_username db req.username) v

spared :
    (db : Db) (target : User) (b : Bool)
    → (admin_user target && not b && is_last_admin db) ≡ false
    → (b ≡ true) ⊎ Spared db target
unfolding is_last_admin Spared
spared db target true h = inl refl
spared db target false h = elim (Bool-cases (admin_user target)) [
  | inl e ↦ inr (inr (ground arith))
  | inr e ↦ inr (inl e)
]

deletable :
    (db : Db) (target : User) → (admin_user target && is_last_admin db) ≡ false → Spared db target
unfolding is_last_admin Spared
deletable db target h = elim (Bool-cases (admin_user target)) [
  | inl e ↦ inr (ground arith)
  | inr e ↦ inl e
]

pub handle_update_user-Staffed :
    (db : Db) (caller : User) (raw : Option ℕ) (body : Option Role)
    → Staffed db
    → Staffed (handle_update_user db caller raw body).1
unfolding handle_update_user
handle_update_user-Staffed db caller raw body v = path_id-keeps Staffed db v raw _ λ id.
    on_ok-keeps Staffed db v (user_by_id db id) _ _ λ target found.
      decode_json-keeps Staffed db v body _ λ role.
        unless-keeps Staffed db v (not (role_valid role)) 400 "user.invalid_role" _ λ _.
          unless-keeps Staffed db v (admin_user target && not (is_admin role) && is_last_admin db)
            409 "user.last_admin" _
            λ free.
              role_updated-Staffed db caller target id role (update_user_role db id role) found
                (spared db target (is_admin role) free) refl v

pub handle_set_user_password-Staffed :
    (hash_password : String → Option String) (db : Db) (caller : User) (raw : Option ℕ)
    (body : Option String)
    → Staffed db
    → Staffed (handle_set_user_password hash_password db caller raw body).1
unfolding handle_set_user_password
handle_set_user_password-Staffed hash_password db caller raw body v =
    path_id-keeps Staffed db v raw _ λ id.
      on_ok-keeps Staffed db v (user_by_id db id) _ _ λ target found.
        decode_json-keeps Staffed db v body _ λ password.
          unless-keeps Staffed db v (ltb (byte_len password) min_password_length) 400
            "user.weak_password" _
            λ _.
              or_internal-Staffed (hash_password password) db _ v
                λ hash. password_updated-Staffed db caller id "user.reset_password" hash _ refl v

pub handle_change_own_password-Staffed :
    (hash_password : String → Option String) (verify_password : String → String → Option Bool)
    (db : Db) (user : User) (body : Option (String × String))
    → Staffed db
    → Staffed (handle_change_own_password hash_password verify_password db user body).1
unfolding handle_change_own_password
handle_change_own_password-Staffed hash_password verify_password db user body v =
    decode_json-keeps Staffed db v body _ λ (current, new_password).
      unless-keeps Staffed db v (not_verified (verify_password current user.password_hash)) 403
        "user.wrong_password" _
        λ _.
          unless-keeps Staffed db v (ltb (byte_len new_password) min_password_length) 400
            "user.weak_password" _
            λ _.
              or_internal-Staffed (hash_password new_password) db _ v λ hash.
                password_updated-Staffed db user user.id "user.change_password" hash _ refl v

pub handle_delete_user-Staffed :
    (db : Db) (caller : User) (raw : Option ℕ)
    → Staffed db
    → Staffed (handle_delete_user db caller raw).1
unfolding handle_delete_user
handle_delete_user-Staffed db caller raw v = path_id-keeps Staffed db v raw _ λ id.
    unless-keeps Staffed db v (caller.id == id) 409 "user.cannot_delete_self" _ λ _.
      on_ok-keeps Staffed db v (user_by_id db id) _ _ λ target found.
        unless-keeps Staffed db v (admin_user target && is_last_admin db) 409 "user.last_admin" _
          λ free.
            user_deleted-Staffed db caller target id (delete_user db id) found
              (deletable db target free) refl v
