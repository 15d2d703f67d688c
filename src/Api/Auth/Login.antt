-- ===== src/Api/Auth/Login.antt =====
-- What a login gives access to, and what a logout and a new password take away:
-- backend/internal/api/handlers_auth.go with `require` of backend/internal/api/middleware.go.
use helboot.Prelude.{
  ℕ, ◌+◌, ◌≤◌, ◌<◌, ◌≢◌, String, ◌≡◌, refl, Bool, true, false, not, inl, inr, Option, none, some,
  arith, ◌==◌, ℕ_eq, String_eq, first, keep, Bool-cases,
}
use helboot.Time.{Time, format_time}
use helboot.Model.{Role, role_rank, User, Session}
use helboot.Store.Db.{Db, Result, ok, err, not_found}
use helboot.Store.Db.Counting.{first_kept, first-keep-none}
use helboot.Store.Users.{user_by_id, user_by_username, update_user_password}
use helboot.Store.Sessions.{create_session, session_by_token, delete_session}
use helboot.Api.Respond.{done}
use helboot.Api.Access.{HttpRequest, passed, rejected, check_cookie, check_session, require}
use helboot.Api.Access.Gatekeeping.{require_iff}
use helboot.Api.Auth.{
  LoginRequest, session_ttl, SignedIn, new_session, session_created, start_session, refuse_login,
  verified, check_login, handle_login, handle_logout,
}

-- The session that a login leaves in the table.
abbrev pub stored_session : User → String → String → Time → Session
stored_session user token csrf now = record (new_session user token csrf now) {
  created_at = format_time now;
  expires_at = format_time (now + session_ttl);
}

-- Where a login succeeds: the user, with the name up to case and the password of the request, and the
-- session under the fresh tokens.
pub record LoggedIn (verify_password : String → String → Option Bool) (db : Db) (req : LoginRequest)
    (token csrf : Option String) (now : Time) (s : SignedIn) (db' : Db) : Type 0 where
  pub found : user_by_username db req.username ≡ ok s.user
  pub password : verify_password req.password s.user.password_hash ≡ some true
  pub fresh : token ≡ some s.cookie
  pub csrf_is : csrf ≡ some s.csrf_token
  pub users : db'.users ≡ db.users
  pub session :
      first (λ x. x.token == s.cookie) db'.sessions
      ≡ some (stored_session s.user s.cookie s.csrf_token now)

verified-true : (o : Option Bool) → verified o ≡ true → o ≡ some true
unfolding verified
verified-true none h = absurd (ground arith)
verified-true (some true) h = refl
verified-true (some false) h = absurd (ground arith)

started :
    (db db' : Db) (user : User) (token csrf : Option String) (now : Time) (status : ℕ)
    (s : SignedIn)
    → start_session db user token csrf now ≡ (done status s, db')
    → (s.user ≡ user)
      × (token ≡ some s.cookie)
      × (csrf ≡ some s.csrf_token)
      × (db'.users ≡ db.users)
      × (first (λ x. x.token == s.cookie) db'.sessions
          ≡ some (stored_session user s.cookie s.csrf_token now))
unfolding start_session session_created create_session new_session
started db db' user (some t) (some c) now status s h =
    let same = (String_eq.equals_iff t t).1 refl in ground arith
started db db' user none csrf now status s h = absurd (ground arith)
started db db' user (some t) none now status s h = absurd (ground arith)

check_login-LoggedIn :
    (verify_password : String → String → Option Bool) (dummy_hash : String) (db db' : Db)
    (req : LoginRequest) (token csrf : Option String) (now : Time) (status : ℕ) (s : SignedIn)
    (r : Result User)
    → user_by_username db req.username ≡ r
    → check_login verify_password dummy_hash db req token csrf now r ≡ (done status s, db')
    → LoggedIn verify_password db req token csrf now s db'
unfolding check_login refuse_login
check_login-LoggedIn verify_password dummy_hash db db' req token csrf now status s (ok user) e h =
    elim (Bool-cases (verified (verify_password req.password user.password_hash))) [
      | inl t ↦
          let begun : start_session db user token csrf now ≡ (done status s, db') = ground arith in
          let (same, fresh, csrf_is, users, session) =
            started db db' user token csrf now status s begun in
          let good = verified-true (verify_password req.password user.password_hash) t in
          record {
            found = rw same e;
            password = rw same good;
            fresh = fresh;
            csrf_is = csrf_is;
            users = users;
            session = rw same session;
          }
      | inr f ↦ absurd (ground arith)
    ]
check_login-LoggedIn verify_password dummy_hash db db' req token csrf now status s (err not_found) e
      h =
    absurd (ground arith)
check_login-LoggedIn verify_password dummy_hash db db' req token csrf now status s (err x) e h =
    absurd (ground arith)

-- A login that is answered with a session was let through by the rate limiter, names a user up to
-- case and verifies that user's password; the session is stored under the fresh tokens, and the
-- users are unchanged.
pub handle_login-LoggedIn :
    (verify_password : String → String → Option Bool) (dummy_hash : String) (db db' : Db)
    (allowed : Bool) (req : LoginRequest) (token csrf : Option String) (now : Time) (status : ℕ)
    (s : SignedIn)
    → handle_login verify_password dummy_hash db allowed (some req) token csrf now
      ≡ (done status s, db')
    → (allowed ≡ true) × LoggedIn verify_password db req token csrf now s db'
unfolding handle_login
handle_login-LoggedIn verify_password dummy_hash db db' false req token csrf now status s h =
    absurd (ground arith)
handle_login-LoggedIn verify_password dummy_hash db db' true req token csrf now status s h = (
  refl,
  check_login-LoggedIn verify_password dummy_hash db db' req token csrf now status s _ refl h,
)

-- After a login that succeeds, a request with the cookie and the CSRF token of the response passes
-- `require` as the user, at any route whose role the user has, until seven days later, cut to
-- whole seconds. The user is the one found under its identifier.
pub login_passes :
    (verify_password : String → String → Option Bool) (dummy_hash : String) (db db' : Db)
    (allowed : Bool) (req : LoginRequest) (token csrf : Option String) (now later : Time)
    (status : ℕ) (s : SignedIn) (min : Role) (r : HttpRequest)
    → handle_login verify_password dummy_hash db allowed (some req) token csrf now
      ≡ (done status s, db')
    → user_by_id db s.user.id ≡ ok s.user
    → role_rank min ≤ role_rank s.user.role
    → later < format_time (now + session_ttl)
    → r.cookie ≡ some s.cookie
    → r.csrf_header ≡ s.csrf_token
    → require db' min r later ≡ passed s.user (stored_session s.user s.cookie s.csrf_token now)
unfolding session_by_token new_session user_by_id
login_passes verify_password dummy_hash db db' allowed req token csrf now later status s min r h
      found rank early cookie header =
    let (_, v) =
      handle_login-LoggedIn verify_password dummy_hash db db' allowed req token csrf now status s
        h in
    let session = v.session in
    let users = v.users in
    (require_iff db' min r later s.user (stored_session s.user s.cookie s.csrf_token now)).1
      (record {
        cookie = cookie;
        stored = ground arith;
        fresh = early;
        user = ground arith;
        role = rank;
        csrf = inr header;
      })

-- After a logout, every request with the cookie of the session is refused by 401.
pub logout_rejects :
    (db : Db) (s : Session) (min : Role) (r : HttpRequest) (now : Time)
    → r.cookie ≡ some s.token
    → require (handle_logout db s).1 min r now ≡ rejected 401 "auth.session_expired"
unfolding handle_logout delete_session require check_cookie check_session session_by_token
logout_rejects db s min r now cookie =
    let gone =
      first-keep-none (λ (x : Session). x.token == s.token) (λ x. not (x.token == s.token))
        db.sessions (λ y e. ground arith) in
    ground arith

-- After a user's password is changed, no request passes `require` with a session of that user.
pub update_user_password_revokes :
    (db db' : Db) (id : ℕ) (hash : String) (min : Role) (r : HttpRequest) (now : Time) (u : User)
    (s : Session)
    → update_user_password db id hash ≡ ok db'
    → require db' min r now ≡ passed u s
    → s.user_id ≢ id
unfolding update_user_password session_by_token
update_user_password_revokes db db' id hash min r now u s h through e =
    let a = (require_iff db' min r now u s).0 through in
    let stored = a.stored in
    let rows : db'.sessions ≡ keep (λ x. not (x.user_id == id)) db.sessions = ground arith in
    let found : first (λ x. x.token == s.token) (keep (λ x. not (x.user_id == id)) db.sessions)
        ≡ some s =
      ground arith in
    let passes =
      first_kept (λ (x : Session). x.token == s.token) (λ x. not (x.user_id == id)) db.sessions s
        found in
    let same = (ℕ_eq.equals_iff s.user_id id).1 e in ground arith
