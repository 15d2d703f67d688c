-- ===== src/Api/AccountExamples.antt =====
-- The theorems on profiles and sessions at concrete databases and requests, and tests.
use helboot.Prelude.{
  ℕ, ◌≤◌, ◌≢◌, ◌≡◌, refl, String, Bool, true, false, List, [], ◌∷◌, Option, none, some, arith,
}
use helboot.Time.{second, format_time}
use helboot.Model.{Role, operator, viewer, User, Session}
use helboot.Store.Db.{Db}
use helboot.Store.Users.{update_user_password}
use helboot.Store.Profiles.Pinned.{Pinned}
use helboot.Answer.{rendered}
use helboot.Api.Fixtures.{root_user, version_one, idle_db, new_installation, queued_db, registry}
use helboot.Api.Respond.{done}
use helboot.Api.Access.{HttpRequest, get, post, passed, require}
use helboot.Api.Auth.{LoginRequest, SignedIn, session_ttl, handle_login, handle_logout}
use helboot.Api.Auth.Login.{stored_session, login_passes, update_user_password_revokes}
use helboot.Api.Profiles.{UpdateProfileRequest, handle_update_profile}
use helboot.Api.Profiles.History
use helboot.Api.Profiles.History.{ProfileSteps-Pinned}

abbrev edit : UpdateProfileRequest
edit = record {
  name = "desktop";
  iso_id = some 1;
  config = some "{\"User\":\"x\"}";
  save_as_new_version = true;
}

queued_db-Pinned : Pinned 1 "{}" queued_db
queued_db-Pinned = record {
  version = version_one;
  found = refl;
  kept = refl;
  given = omega arith;
  install = new_installation;
  referenced = refl;
}

ProfileSteps-Pinned_example :
    Pinned 1 "{}"
      (handle_update_profile
        (λ _. some (λ _. none))
        (λ _. true)
        queued_db
        registry
        root_user
        (some 1)
        (some edit)
        9).1
ProfileSteps-Pinned_example =
    ProfileSteps-Pinned (λ _. some (λ _. none)) (λ _. true) (λ t c. rendered t) registry 1 "{}"
      (History.next History.none_yet (History.edit root_user (some 1) (some edit) 9))
      queued_db-Pinned

abbrev verify : String → String → Option Bool
verify p h = some true

abbrev who : LoginRequest
who = record { username = "ROOT"; password = "0123456789" }

abbrev signed : SignedIn
signed = record { cookie = "c"; csrf_token = "x"; user = root_user }

abbrev after_login : Db
after_login = (handle_login verify "d" idle_db true (some who) (some "c") (some "x") 5).1

logged_in :
    handle_login verify "d" idle_db true (some who) (some "c") (some "x") 5
    ≡ (done 200 signed, after_login)
unfolding handle_login helboot.Api.Auth.check_login helboot.Store.Users.user_by_username
    helboot.Prelude.nocase_eq helboot.Api.Auth.verified helboot.Api.Auth.start_session
    helboot.Api.Auth.session_created helboot.Store.Sessions.create_session
    helboot.Api.Auth.new_session
logged_in = refl

abbrev limiter : Bool
limiter = true

abbrev change_request : HttpRequest
change_request = record { method = post; cookie = some "c"; csrf_header = "x" }

login_passes_example :
    require after_login operator change_request second
    ≡ passed root_user (stored_session root_user "c" "x" 5)
unfolding helboot.Store.Users.user_by_id helboot.Model.role_rank format_time
login_passes_example =
    login_passes verify "d" idle_db after_login true who (some "c") (some "x") 5 second 200 signed
      operator change_request logged_in refl (omega arith) (omega arith) refl refl

abbrev other_session : Session
other_session = record {
  token = "d";
  user_id = 2;
  csrf_token = "y";
  created_at = 0;
  expires_at = 100;
}

abbrev other_user : User
other_user = record root_user { id = 2; username = "eve" }

abbrev two_users : Db
two_users = record after_login {
  users = other_user ∷ root_user ∷ [];
  sessions = other_session ∷ after_login.sessions;
}

abbrev after_change : Db
after_change = record two_users {
  users = other_user ∷ record root_user { password_hash = "h2" } ∷ [];
  sessions = other_session ∷ [];
}

update_user_password_revokes_example : other_session.user_id ≢ root_user.id
unfolding update_user_password handle_login helboot.Api.Auth.check_login
    helboot.Store.Users.user_by_username helboot.Prelude.nocase_eq helboot.Api.Auth.verified
    helboot.Api.Auth.start_session helboot.Api.Auth.session_created
    helboot.Store.Sessions.create_session helboot.Api.Auth.new_session require
    helboot.Store.Sessions.session_by_token helboot.Store.Users.user_by_id helboot.Model.at_least
update_user_password_revokes_example =
    update_user_password_revokes two_users after_change 1 "h2" viewer
      (record { method = get; cookie = some "d"; csrf_header = "" }) 7 other_user other_session refl
      refl
