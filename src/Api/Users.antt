-- ===== src/Api/Users.antt =====
-- The users: backend/internal/api/handlers_users.go. The hash of a password is Argon2id with a random
-- salt (backend/internal/auth): it is the argument `hash_password`, which may fail, and its check is
-- the argument `verify_password`.
pub mod LastAdmin
pub mod History
use helboot.Prelude.{
  ℕ, String, Bool, true, false, not, ◌&&◌, Option, none, some, ltb, leb, ◌==◌, ℕ_eq, String_eq,
  if◌then◌else◌, byte_len,
}
use helboot.Time.{Time}
use helboot.Model.{Role, admin, role_valid, User}
use helboot.Store.Db.{Db, Result, ok, err}
use helboot.Store.Users.{
  is_admin, user_by_id, user_by_username, create_user, count_admins, update_user_role,
  update_user_password, delete_user,
}
use helboot.Api.Respond.{
  Response, done, failed, Handled, internal_error, store_error, decode_json, path_id, on_ok, unless,
  audit,
}

pub record CreateUserRequest : Type 0 where
  pub username : String
  pub password : String
  pub role : Role
  pub locale : String

abbrev pub min_password_length : ℕ
min_password_length = 10

-- A result of the library that may fail, an error being internal.
abbrev or_internal : {A B : Type 0} → Option A → Db → (A → Handled B) → Handled B
or_internal none db k = (internal_error, db)
or_internal (some a) db k = k a

user_created : Db → User → Result (User × Db) → Handled User
user_created db caller (err e) = (internal_error, db)
user_created db caller (ok (user, db')) =
    (done 201 user, audit db' (some caller) "user.create" "user" user.id)

insert_user : Db → User → CreateUserRequest → Time → Option String → Result User → Handled User
unfolding user_created
insert_user db caller req now hash (ok _) = (failed 409 "user.exists", db)
insert_user db caller req now hash (err _) = or_internal hash db λ h.
    user_created db caller
      (create_user db req.username h req.role (if req.locale == "" then "en" else req.locale) now)

unfoldable pub handle_create_user :
    (String → Option String) → Db → User → Option CreateUserRequest → Time → Handled User
unfolding insert_user
handle_create_user hash_password db caller body now = decode_json body db λ req.
    unless (ltb (byte_len req.username) 3) 400 "user.invalid_username" db (
      unless (ltb (byte_len req.password) min_password_length) 400 "user.weak_password" db (
        unless (not (role_valid req.role)) 400 "user.invalid_role" db (
          insert_user db caller req now (hash_password req.password)
            (user_by_username db req.username))))

unfoldable pub is_last_admin : Db → Bool
is_last_admin db = leb (count_admins db) 1

-- After the write, the user is read again for the response.
role_updated : Db → User → ℕ → Result Db → Handled User
role_updated db caller id (err e) = (store_error e, db)
role_updated db caller id (ok db') =
    let db'' = audit db' (some caller) "user.update_role" "user" id in
    on_ok (user_by_id db'' id) store_error db'' λ updated. (done 200 updated, db'')

unfoldable pub handle_update_user : Db → User → Option ℕ → Option Role → Handled User
unfolding role_updated is_admin is_last_admin
handle_update_user db caller raw body = path_id raw db λ id.
    on_ok (user_by_id db id) store_error db λ target. decode_json body db λ role.
      unless (not (role_valid role)) 400 "user.invalid_role" db (
        unless (is_admin target.role && not (is_admin role) && is_last_admin db) 409
          "user.last_admin" db (role_updated db caller id (update_user_role db id role)))

password_updated : Db → User → ℕ → String → Result Db → Handled Unit
password_updated db caller id action (err e) = (store_error e, db)
password_updated db caller id action (ok db') =
    (done 200 tt, audit db' (some caller) action "user" id)

unfoldable pub handle_set_user_password :
    (String → Option String) → Db → User → Option ℕ → Option String → Handled Unit
unfolding password_updated
handle_set_user_password hash_password db caller raw body = path_id raw db λ id.
    on_ok (user_by_id db id) store_error db λ _. decode_json body db λ password.
      unless (ltb (byte_len password) min_password_length) 400 "user.weak_password" db (
        or_internal (hash_password password) db λ hash.
          password_updated db caller id "user.reset_password" (update_user_password db id hash))

-- VerifyPassword refuses, or fails.
not_verified : Option Bool → Bool
not_verified (some true) = false
not_verified _ = true

unfoldable pub handle_change_own_password :
    (String → Option String)
    → (String → String → Option Bool)
    → Db
    → User
    → Option (String × String)
    → Handled Unit
unfolding not_verified password_updated
handle_change_own_password hash_password verify_password db user body =
    decode_json body db λ (current, new_password).
      unless (not_verified (verify_password current user.password_hash)) 403 "user.wrong_password"
        db
        (unless (ltb (byte_len new_password) min_password_length) 400 "user.weak_password" db (
          or_internal (hash_password new_password) db λ hash.
            password_updated db user user.id "user.change_password"
              (update_user_password db user.id hash)))

user_deleted : Db → User → ℕ → Result Db → Handled Unit
user_deleted db caller id (err e) = (store_error e, db)
user_deleted db caller id (ok db') = (done 204 tt, audit db' (some caller) "user.delete" "user" id)

unfoldable pub handle_delete_user : Db → User → Option ℕ → Handled Unit
unfolding user_deleted is_admin is_last_admin
handle_delete_user db caller raw = path_id raw db λ id.
    unless (caller.id == id) 409 "user.cannot_delete_self" db (
      on_ok (user_by_id db id) store_error db λ target.
        unless (is_admin target.role && is_last_admin db) 409 "user.last_admin" db
          (user_deleted db caller id (delete_user db id)))
