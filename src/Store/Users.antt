-- ===== src/Store/Users.antt =====
-- The tables users and audit_log: backend/internal/store/users.go.
pub mod Staff
pub mod Keeping
use helboot.Prelude.{
  ℕ, ◌+◌, String, Bool, true, false, not, ◌&&◌, ◌||◌, List, [], ◌∷◌, Option, none, some, map, leb,
  ◌==◌, ℕ_eq, if◌then◌else◌, first, keep, nocase_eq,
}
use helboot.Time.{Time, format_time}
use helboot.Model.{Role, admin, role_valid, User, Session}
use helboot.Store.Db.{
  Db, Result, ok, err, not_found, constraint, or_not_found, exists, count_if, change, AuditEntry,
  EntityId,
}

unfoldable pub is_admin : Role → Bool
is_admin admin = true
is_admin _ = false

unfoldable pub user_by_id : Db → ℕ → Result User
user_by_id db id = or_not_found (first (λ u. u.id == id) db.users)

unfoldable pub user_by_username : Db → String → Result User
user_by_username db name = or_not_found (first (λ u. nocase_eq u.username name) db.users)

-- CHECK (role IN …) and UNIQUE COLLATE NOCASE (username).
unfoldable pub create_user : Db → String → String → Role → String → Time → Result (User × Db)
create_user db username hash role locale now =
    let id = db.last_user + 1 in
    let user : User = record {
      id = id;
      username = username;
      password_hash = hash;
      role = role;
      locale = locale;
      created_at = format_time now;
    } in
    if not (role_valid role) || exists (λ u. nocase_eq u.username username) db.users
    then err constraint
    else ok (user, record db { users = user ∷ db.users; last_user = id })

unfoldable pub count_users : Db → ℕ
count_users db = count_if (λ _. true) db.users

unfoldable pub count_admins : Db → ℕ
unfolding is_admin
count_admins db = count_if (λ u. is_admin u.role) db.users

unfoldable pub update_user_role : Db → ℕ → Role → Result Db
update_user_role db id role =
    if exists (λ u. u.id == id) db.users
    then (if role_valid role
        then ok (record db {
          users = change (λ u. u.id == id) (λ u. record u { role = role }) db.users;
        })
        else err constraint)
    else err not_found

-- The sessions of the user are revoked in the same transaction.
unfoldable pub update_user_password : Db → ℕ → String → Result Db
update_user_password db id hash =
    if exists (λ u. u.id == id) db.users
    then ok (record db {
      users = change (λ u. u.id == id) (λ u. record u { password_hash = hash }) db.users;
      sessions = keep (λ s. not (s.user_id == id)) db.sessions;
    })
    else err not_found

clear_user : ℕ → Option ℕ → Option ℕ
clear_user id none = none
clear_user id (some u) = if u == id then none else some u

-- ON DELETE CASCADE for the sessions, SET NULL for the audit log.
unfoldable pub delete_user : Db → ℕ → Result Db
unfolding clear_user
delete_user db id =
    if exists (λ u. u.id == id) db.users
    then ok (record db {
      users = keep (λ u. not (u.id == id)) db.users;
      sessions = keep (λ s. not (s.user_id == id)) db.sessions;
      audit_log =
          map {A = AuditEntry} (λ a. record a { user_id = clear_user id a.user_id }) db.audit_log;
    })
    else err not_found

unfoldable pub add_audit : Db → Option ℕ → String → String → EntityId → Db
add_audit db user_id action entity entity_id = record db {
  audit_log =
      record { user_id = user_id; action = action; entity = entity; entity_id = entity_id }
      ∷ db.audit_log;
}
