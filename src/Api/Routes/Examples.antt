-- ===== src/Api/Routes/Examples.antt =====
-- Requests to the routes: backend/internal/api/server.go.
use helboot.Prelude.{none, ◌≡◌, ◌⊎◌, refl, true, some}
use helboot.Model.{Session}
use helboot.Api.Fixtures.{root_user, login, signed_in}
use helboot.Api.Access.{HttpRequest, get, post, delete}
use helboot.Api.Routes.{dispatch, reached, refused, unknown_endpoint}
use helboot.Api.Routes.Guarded.{is_open, Guarded, dispatch-Guarded}

abbrev delete_request : HttpRequest
delete_request = record { method = delete; cookie = some "c"; csrf_header = "x" }

dispatch-Guarded_example :
    (is_open "handleDeleteHost" ≡ true)
    ⊎ Guarded signed_in delete_request 7 "handleDeleteHost" (some (root_user, login))
unfolding helboot.Api.Access.mutates dispatch helboot.Api.Routes.routes
    helboot.Api.Routes.route_matches helboot.Filepath.elements helboot.Api.Access.require
    helboot.Store.Sessions.session_by_token helboot.Store.Users.user_by_id helboot.Model.at_least
dispatch-Guarded_example =
    dispatch-Guarded true true signed_in delete_request "/api/v1/hosts/1" 7 "handleDeleteHost"
      (some (root_user, login)) refl refl

without_token :
    dispatch true true signed_in (record delete_request { csrf_header = "" }) "/api/v1/hosts/1" 7
    ≡ refused 403 "auth.csrf"
unfolding dispatch helboot.Api.Routes.routes helboot.Api.Routes.route_matches
    helboot.Filepath.elements helboot.Api.Access.require helboot.Store.Sessions.session_by_token
    helboot.Store.Users.user_by_id helboot.Model.at_least
without_token = refl

no_such_route : dispatch true true signed_in delete_request "/api/v1/hosts" 7 ≡ unknown_endpoint
unfolding dispatch helboot.Api.Routes.routes helboot.Api.Routes.route_matches
    helboot.Filepath.elements helboot.Api.Routes.boot_routes
no_such_route = refl

reported :
    dispatch true true signed_in
      (record delete_request { method = post; cookie = none })
      "/boot/report/t2"
      7
    ≡ reached "handleReport" none
unfolding dispatch helboot.Api.Routes.routes helboot.Api.Routes.route_matches
    helboot.Filepath.elements helboot.Api.Routes.boot_routes
reported = refl
