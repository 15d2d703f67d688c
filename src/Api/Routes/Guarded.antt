-- ===== src/Api/Routes/Guarded.antt =====
-- Who reaches the handlers that change state: buildRoutes and require of backend/internal/api.
use helboot.Prelude.{
  ◌≤◌, String, ◌≡◌, ◌≢◌, refl, false, ap, sym, ◌∙◌, Bool, true, ◌&&◌, ◌||◌, List, [], ◌∷◌, Option,
  some, arith, ◌==◌, String_eq, if◌then◌else◌, first, first_holds, leb, Option-cases, inl, inr, ◌⊎◌,
}
use helboot.Time.{Time}
use helboot.Model.{Role, role_rank, User, Session}
use helboot.Store.Db.{Db}
use helboot.Api.Access.{Method, HttpRequest, mutates, Gate, rejected, passed, require}
use helboot.Api.Access.Gatekeeping.{Allowed, require_iff}
use helboot.Api.Routes.{
  RouteAccess, no_session, needs, Route, method_matches, route_matches, routes, boot_routes,
  all_routes, fallback, gated, enter, to_route, dispatch, reached,
}

-- The handlers without a session, and those for every user.
abbrev pub is_open : String → Bool
is_open h = h == "handleLogin" || h == "handleSetupComplete" || h == "handleReport"

abbrev pub is_own : String → Bool
is_own h = h == "handleLogout" || h == "handleChangeOwnPassword"

abbrev safe_access : String → RouteAccess → Bool
safe_access h no_session = is_open h
safe_access h (needs min) = leb 2 (role_rank min) || is_own h

abbrev safe : Route → Bool
safe r = if mutates r.method then safe_access r.handler r.access else true

abbrev every : List Route → Bool
every [] = true
every (r ∷ rs) = safe r && every rs

every-first :
    (p : Route → Bool) (rs : List Route) (r : Route)
    → every rs ≡ true
    → first p rs ≡ some r
    → safe r ≡ true
every-first p [] r h e = absurd (ground arith)
every-first p (x ∷ rs) r h e = ground (arith, every-first p rs r)

routes_safe : (has_boot : Bool) → every (all_routes has_boot) ≡ true
unfolding routes boot_routes all_routes mutates role_rank
routes_safe true = refl
routes_safe false = refl

not_reached :
    (has_static : Bool) (path h : String) (who : Option (User × Session))
    → fallback has_static path ≢ reached h who
unfolding fallback
not_reached has_static path h who = λ e. ground arith

mutating_route : (m n : Method) → method_matches m n ≡ true → mutates n ≡ true → mutates m ≡ true
unfolding method_matches mutates
mutating_route m n h e = ground arith

-- A session that the gate lets through: of an operator or an administrator, or for what a user does
-- to their own account.
pub record Guarded (db : Db) (req : HttpRequest) (now : Time) (handler : String)
    (who : Option (User × Session)) : Type 0 where
  pub user : User
  pub session : Session
  pub min : Role
  pub is_user : who ≡ some (user, session)
  pub allowed : Allowed db min req now user session
  pub trusted : (2 ≤ role_rank user.role) ⊎ (is_own handler ≡ true)

module _ (db : Db) (req : HttpRequest) (now : Time) (h : String)
    (who : Option (User × Session)) where
  gated-Guarded :
      (handler : String) (min : Role) (g : Gate)
      → require db min req now ≡ g
      → gated handler g ≡ reached h who
      → safe_access handler (needs min) ≡ true
      → Guarded db req now h who
  unfolding gated
  gated-Guarded handler min (rejected code reason) k e s = absurd (ground arith)
  gated-Guarded handler min (passed u t) k e s =
      let a = (require_iff db min req now u t).0 k in
      let rank = a.role in
      record {
        user = u;
        session = t;
        min = min;
        is_user = ground arith;
        allowed = a;
        trusted = ground arith;
      }

  enter-Guarded :
      (handler : String) (a : RouteAccess)
      → enter db req now handler a ≡ reached h who
      → safe_access handler a ≡ true
      → (is_open h ≡ true) ⊎ Guarded db req now h who
  unfolding enter
  enter-Guarded handler no_session e s = inl (ground arith)
  enter-Guarded handler (needs min) e s =
      inr (gated-Guarded handler min (require db min req now) refl e s)

-- Whatever request with a method that changes state reaches a handler, of the API or of the boot
-- endpoints: it is the login, the completion of the first-run wizard or the installer's report, or
-- the request passed require as a user with a session, and the user is an operator or an
-- administrator, or the handler is the logout or the change of one's own password.
pub dispatch-Guarded :
    (has_boot has_static : Bool) (db : Db) (req : HttpRequest) (path : String) (now : Time)
    (h : String) (who : Option (User × Session))
    → mutates req.method ≡ true
    → dispatch has_boot has_static db req path now ≡ reached h who
    → (is_open h ≡ true) ⊎ Guarded db req now h who
unfolding dispatch to_route route_matches
dispatch-Guarded has_boot has_static db req path now h who m e =
    let rs = all_routes has_boot in
    let otherwise = fallback has_static path in
    elim (Option-cases (first (λ r. route_matches r req.method path) rs)) [
      | inl n ↦
          absurd
            (not_reached has_static path h who (sym (ap (to_route db req now otherwise) n) ∙ e))
      | inr (r, n) ↦
          let fits = first_holds (λ r. route_matches r req.method path) rs r n in
          let ok =
            every-first (λ r. route_matches r req.method path) rs r (routes_safe has_boot) n in
          let change = mutating_route r.method req.method in
          enter-Guarded db req now h who r.handler r.access
            (sym (ap (to_route db req now otherwise) n) ∙ e) (ground arith)
    ]
