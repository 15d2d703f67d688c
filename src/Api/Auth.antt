-- ===== src/Api/Auth.antt =====
-- Sign-in and sign-out: backend/internal/api/handlers_auth.go. Of the request's client, the handler is
-- told the answer of the rate limiter (`allowed`); `verify_password` is VerifyPassword,
-- `dummy_hash` the hash for unknown names, and `token` and `csrf` the results of auth.NewToken.
pub mod Login
use helboot.Prelude.{ℕ, ◌+◌, ◌*◌, String, Bool, true, false, not, Option, none, some, if◌then◌else◌}
use helboot.Time.{Time, minute}
use helboot.Model.{User, Session}
use helboot.Store.Db.{Db, Result, ok, err, StoreError, not_found, name_text}
use helboot.Store.Users.{user_by_username, add_audit}
use helboot.Store.Sessions.{create_session, delete_session}
use helboot.Api.Respond.{Response, done, failed, Handled, internal_error, decode_json, unless}

pub record LoginRequest : Type 0 where
  pub username : String
  pub password : String

-- 7 days
abbrev pub session_ttl : ℕ
session_ttl = 7 * 24 * 60 * minute

-- The cookie's value and the CSRF token that the response carries, and the user.
pub record SignedIn : Type 0 where
  pub cookie : String
  pub csrf_token : String
  pub user : User

unfoldable pub new_session : User → String → String → Time → Session
new_session user token csrf now = record {
  token = token;
  user_id = user.id;
  csrf_token = csrf;
  created_at = now;
  expires_at = now + session_ttl;
}

unfoldable pub session_created : Db → User → String → String → Result Db → Handled SignedIn
session_created db user token csrf (err e) = (internal_error, db)
session_created db user token csrf (ok db') =
    (done 200 (record { cookie = token; csrf_token = csrf; user = user }), db')

unfoldable pub start_session : Db → User → Option String → Option String → Time → Handled SignedIn
start_session db user (some token) (some csrf) now =
    session_created db user token csrf (create_session db (new_session user token csrf now))
start_session db user _ _ now = (internal_error, db)

unfoldable pub refuse_login : Db → String → Handled SignedIn
refuse_login db name = (
  failed 401 "auth.invalid_credentials",
  add_audit db none "auth.login_failed" "user" (name_text name),
)

unfoldable pub verified : Option Bool → Bool
verified (some true) = true
verified _ = false

module _ (verify_password : String → String → Option Bool) (dummy_hash : String) where
  -- The password is verified whether the user exists or not.
  unfoldable pub check_login :
      Db → LoginRequest → Option String → Option String → Time → Result User → Handled SignedIn
  check_login db req token csrf now (ok user) =
      if verified (verify_password req.password user.password_hash)
      then start_session db user token csrf now
      else refuse_login db req.username
  check_login db req token csrf now (err not_found) =
      if verified (verify_password req.password dummy_hash)
      then refuse_login db req.username
      else refuse_login db req.username
  check_login db req token csrf now (err e) = (internal_error, db)

  unfoldable pub handle_login :
      Db → Bool → Option LoginRequest → Option String → Option String → Time → Handled SignedIn
  handle_login db allowed body token csrf now = unless (not allowed) 429 "auth.rate_limited" db (
      decode_json body db
        λ req. check_login db req token csrf now (user_by_username db req.username))

-- The session of the request's context is deleted.
unfoldable pub handle_logout : Db → Session → Handled Unit
handle_logout db s = (done 200 tt, delete_session db s.token)
