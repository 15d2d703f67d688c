-- ===== src/Api/Users/History.antt =====
-- The users under any sequence of the handlers of backend/internal/api/handlers_users.go, one at a
-- time.
use helboot.Prelude.{ℕ, String, Bool, Option}
use helboot.Time.{Time}
use helboot.Model.{Role, User}
use helboot.Store.Db.{Db}
use helboot.Store.Users.Staff.{Staffed}
use helboot.Api.Users.{
  CreateUserRequest, handle_create_user, handle_update_user, handle_set_user_password,
  handle_change_own_password, handle_delete_user,
}
use helboot.Api.Users.LastAdmin.{
  handle_create_user-Staffed, handle_update_user-Staffed, handle_set_user_password-Staffed,
  handle_change_own_password-Staffed, handle_delete_user-Staffed,
}

module _ (hash : String → Option String) (verify : String → String → Option Bool) where
  pub data UserStep (db : Db) : Db → Type 0 where
    create :
        (caller : User) (body : Option CreateUserRequest) (now : Time)
        → UserStep db (handle_create_user hash db caller body now).1
    set_role :
        (caller : User) (id : Option ℕ) (body : Option Role)
        → UserStep db (handle_update_user db caller id body).1
    set_password :
        (caller : User) (id : Option ℕ) (body : Option String)
        → UserStep db (handle_set_user_password hash db caller id body).1
    change_own :
        (user : User) (body : Option (String × String))
        → UserStep db (handle_change_own_password hash verify db user body).1
    remove : (caller : User) (id : Option ℕ) → UserStep db (handle_delete_user db caller id).1

  pub data UserSteps (start : Db) : Db → Type 0 where
    none_yet : UserSteps start start
    next : {db db' : Db} → UserSteps start db → UserStep db db' → UserSteps start db'

  step-Staffed : {db db' : Db} → UserStep db db' → Staffed db → Staffed db'
  step-Staffed (create caller body now) v = handle_create_user-Staffed hash _ caller body now v
  step-Staffed (set_role caller id body) v = handle_update_user-Staffed _ caller id body v
  step-Staffed (set_password caller id body) v =
      handle_set_user_password-Staffed hash _ caller id body v
  step-Staffed (change_own user body) v =
      handle_change_own_password-Staffed hash verify _ user body v
  step-Staffed (remove caller id) v = handle_delete_user-Staffed _ caller id v

  -- Where a database has an administrator, and its users have different identifiers that were all
  -- given, it still has after any sequence of requests to create users, to change roles and
  -- passwords and to delete users, served one after another.
  pub UserSteps-Staffed : {db db' : Db} → UserSteps db db' → Staffed db → Staffed db'
  UserSteps-Staffed none_yet v = v
  UserSteps-Staffed (next run s) v = step-Staffed s (UserSteps-Staffed run v)
