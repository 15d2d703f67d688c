-- ===== src/Api/Access.antt =====
-- Authentication, authorization and CSRF: `require` of backend/internal/api/middleware.go.
pub mod Gatekeeping
use helboot.Prelude.{
  ℕ, String, Bool, true, false, not, ◌&&◌, Option, none, some, ◌==◌, String_eq, if◌then◌else◌,
}
use helboot.Time.{Time}
use helboot.Model.{Role, User, Session, at_least}
use helboot.Store.Db.{Db, Result, ok, err, StoreError, not_found}
use helboot.Store.Users.{user_by_id}
use helboot.Store.Sessions.{session_by_token}

pub data Method : Type 0 where
  get head post put patch delete options : Method

-- What `require` reads of a request: the method, the session cookie, and the CSRF header.
pub record HttpRequest : Type 0 where
  pub method : Method
  pub cookie : Option String
  pub csrf_header : String

-- The methods of the `switch`.
unfoldable pub mutates : Method → Bool
mutates post = true
mutates put = true
mutates patch = true
mutates delete = true
mutates _ = false

-- A request that goes on to its handler carries the user and the session in its context.
pub data Gate : Type 0 where
  rejected : ℕ → String → Gate
  passed : User → Session → Gate

check_csrf : HttpRequest → User → Session → Gate
unfolding mutates
check_csrf r u s =
    if mutates r.method && not (r.csrf_header == s.csrf_token)
    then rejected 403 "auth.csrf"
    else passed u s

check_user : HttpRequest → Role → Session → Result User → Gate
unfolding check_csrf
check_user r min s (err e) = rejected 401 "auth.unauthorized"
check_user r min s (ok u) =
    if not (at_least u.role min) then rejected 403 "auth.forbidden" else check_csrf r u s

unfoldable pub check_session : Db → HttpRequest → Role → Result Session → Gate
unfolding check_user
check_session db r min (err not_found) = rejected 401 "auth.session_expired"
check_session db r min (err e) = rejected 500 "internal"
check_session db r min (ok s) = check_user r min s (user_by_id db s.user_id)

unfoldable pub check_cookie : Db → HttpRequest → Role → Time → Option String → Gate
unfolding check_session
check_cookie db r min now none = rejected 401 "auth.unauthorized"
check_cookie db r min now (some token) = check_session db r min (session_by_token db token now)

unfoldable pub require : Db → Role → HttpRequest → Time → Gate
unfolding check_cookie
require db min r now = check_cookie db r min now r.cookie
