-- ===== src/Api/Access/Gatekeeping.antt =====
-- Who gets through `require` of backend/internal/api/middleware.go.
use helboot.Prelude.{
  ◌≤◌, ◌<◌, String, ◌≡◌, refl, ◌⊎◌, inl, inr, false, Option, none, some, arith, eq_iff, first,
  first_holds, ◌↔◌, ◌==◌, String_eq, ℕ_eq, Option-cases,
}
use helboot.Time.{Time}
use helboot.Model.{Role, User, Session, role_rank, at_least}
use helboot.Store.Db.{Db, Result, ok, err}
use helboot.Store.Users.{user_by_id}
use helboot.Store.Sessions.{session_by_token}
use helboot.Api.Access.{
  Method, get, head, post, put, patch, delete, options, check_csrf, HttpRequest, mutates, passed,
  check_session, check_user, check_cookie, require,
}

-- A method that changes nothing.
abbrev pub IsReading : Method → Type 0
IsReading get = Unit
IsReading head = Unit
IsReading options = Unit
IsReading _ = ⊥

-- What lets a request through.
pub record Allowed (db : Db) (min : Role) (r : HttpRequest) (now : Time) (u : User) (s : Session)
    : Type 0 where
  pub cookie : r.cookie ≡ some s.token
  pub stored : first (λ t. t.token == s.token) db.sessions ≡ some s
  pub fresh : now < s.expires_at
  pub user : first (λ x. x.id == s.user_id) db.users ≡ some u
  pub role : role_rank min ≤ role_rank u.role
  pub csrf : IsReading r.method ⊎ (r.csrf_header ≡ s.csrf_token)

-- A session is found under its own token, and has not expired.
session_by_token_lem :
    (db : Db) (token : String) (now : Time) (s : Session)
    → session_by_token db token now ≡ ok s
    → (s.token ≡ token)
      × (now < s.expires_at)
      × (first (λ x. x.token == token) db.sessions ≡ some s)
unfolding session_by_token
session_by_token_lem db token now s h =
    elim (Option-cases (first (λ x. x.token == token) db.sessions)) [
      | inl e ↦ absurd (ground arith)
      | inr (x, e) ↦
          let hit = first_holds (λ (x : Session). x.token == token) db.sessions x e in
          ground (arith, hit, eq_iff x.token token)
    ]

check_user-passed :
    (db : Db) (min : Role) (r : HttpRequest) (u : User) (s k : Session) (found : Result User)
    → check_user r min k found ≡ passed u s
    → (k ≡ s)
      × (found ≡ ok u)
      × (role_rank min ≤ role_rank u.role)
      × ((mutates r.method ≡ false) ⊎ (r.csrf_header ≡ s.csrf_token))
unfolding check_user at_least
check_user-passed db min r u s k (err e) h = absurd (ground arith)
check_user-passed db min r u s k (ok v) h = ground (arith, eq_iff r.csrf_header k.csrf_token)

module _ {ℓ} {A : Type ℓ} where
  reading : (m : Method) → (mutates m ≡ false) ⊎ A → IsReading m ⊎ A
  unfolding mutates
  reading get h = inl tt
  reading head h = inl tt
  reading options h = inl tt
  reading post h = ground arith
  reading put h = ground arith
  reading patch h = ground arith
  reading delete h = ground arith

  not_reading : (m : Method) → IsReading m ⊎ A → (mutates m ≡ false) ⊎ A
  unfolding mutates
  not_reading get h = inl refl
  not_reading head h = inl refl
  not_reading options h = inl refl
  not_reading post (inl x) = absurd x
  not_reading put (inl x) = absurd x
  not_reading patch (inl x) = absurd x
  not_reading delete (inl x) = absurd x
  not_reading post (inr a) = inr a
  not_reading put (inr a) = inr a
  not_reading patch (inr a) = inr a
  not_reading delete (inr a) = inr a

module _ (db : Db) (min : Role) (r : HttpRequest) (now : Time) (u : User) (s : Session) where
  cookie_passed :
      (c : Option String) (found : Result Session) (token : String)
      → r.cookie ≡ c
      → c ≡ some token
      → session_by_token db token now ≡ found
      → check_session db r min found ≡ passed u s
      → Allowed db min r now u s
  unfolding check_session user_by_id
  cookie_passed c (err e) token p q e' h = absurd (ground arith)
  cookie_passed c (ok k) token p q e' h =
      let (same, who, rank, token_ok) =
        check_user-passed db min r u s k (user_by_id db k.user_id) h in
      let (k_token, fresh, stored) = session_by_token_lem db token now k e' in
      record {
        cookie = cc;
        stored = ground (arith, same);
        fresh = ground arith;
        user = ground arith;
        role = rank;
        csrf = reading r.method token_ok;
      }

  from_cookie :
      (c : Option String)
      → r.cookie ≡ c
      → check_cookie db r min now c ≡ passed u s
      → Allowed db min r now u s
  unfolding check_cookie
  from_cookie none e h = absurd (ground arith)
  from_cookie (some token) e h =
      cookie_passed (some token) (session_by_token db token now) token e refl refl h

  Allowed-passes : Allowed db min r now u s → require db min r now ≡ passed u s
  unfolding require check_cookie check_session check_user check_csrf at_least session_by_token
      user_by_id
  Allowed-passes a =
      let c = a.cookie in
      let t = a.stored in
      let f = a.fresh in
      let o = a.user in
      let k = a.role in
      let rc = not_reading r.method a.csrf in ground (arith, eq_iff r.csrf_header s.csrf_token)

  -- A request passes as a user with a session exactly when its cookie is the token of that
  -- session, which is the one stored under it and ends after the present instant, the user is the
  -- one stored under the session's user and has at least the route's role, and the request's
  -- method only reads or its CSRF header is the session's CSRF token.
  pub require_iff : (require db min r now ≡ passed u s) ↔ Allowed db min r now u s
  unfolding require
  require_iff = (from_cookie r.cookie refl, Allowed-passes)
