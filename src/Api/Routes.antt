-- ===== src/Api/Routes.antt =====
-- The table of routes: buildRoutes of backend/internal/api/server.go, with Register of
-- backend/internal/boot/boot.go. Of the patterns of net/http that name a method, at most one fits a
-- request here. Paths are clean: the redirects of net/http to a clean path reach no handler.
pub mod Guarded
mod Examples
use Prim.Native.Char.{code}
use helboot.Prelude.{
  ℕ, String, Bool, true, false, not, ◌&&◌, ◌||◌, List, [], ◌∷◌, ◌++◌, Option, none, some, ◌==◌,
  String_eq, if◌then◌else◌, first, nat_eq,
}
use helboot.Time.{Time}
use helboot.Model.{Role, viewer, operator, admin, User, Session}
use helboot.Store.Db.{Db}
use helboot.Filepath.{elements}
use helboot.Api.Access.{
  Method, get, head, post, put, patch, delete, options, HttpRequest, Gate, rejected, passed,
  require,
}

pub data RouteAccess : Type 0 where
  no_session : RouteAccess
  needs : Role → RouteAccess

pub record Route : Type 0 where
  pub method : Method
  pub pattern : String
  pub access : RouteAccess
  pub handler : String

route : Method → String → RouteAccess → String → Route
route method pattern access handler = record {
  method = method;
  pattern = pattern;
  access = access;
  handler = handler;
}

-- A pattern for GET takes HEAD too.
unfoldable pub method_matches : Method → Method → Bool
method_matches get get = true
method_matches get head = true
method_matches post post = true
method_matches put put = true
method_matches delete delete = true
method_matches _ _ = false

unfoldable pub is_wildcard : String → Bool
is_wildcard String.[] = false
is_wildcard (String.◌∷◌ c s) = nat_eq (code c) b'{'

unfoldable pub segment_matches : String → String → Bool
unfolding is_wildcard
segment_matches p s = if is_wildcard p then not (s == "") else p == s

-- A last segment that is empty, or `{path...}`, takes the rest of the path.
takes_rest : String → Bool
takes_rest p = p == "" || p == "{path...}"

unfoldable pub segments_match : List String → List String → Bool
unfolding segment_matches takes_rest
segments_match [] [] = true
segments_match (p ∷ []) (s ∷ []) = takes_rest p || segment_matches p s
segments_match (p ∷ []) (s ∷ t ∷ ss) = takes_rest p
segments_match (p ∷ q ∷ ps) (s ∷ ss) = segment_matches p s && segments_match (q ∷ ps) ss
segments_match _ _ = false

unfoldable pub route_matches : Route → Method → String → Bool
unfolding method_matches segments_match
route_matches r method path =
    method_matches r.method method && segments_match (elements r.pattern) (elements path)

unfoldable pub routes : List Route
unfolding route
routes =
    route get "/api/v1/health" no_session "handleHealth"
    ∷ route get "/api/v1/openapi.yaml" no_session "handleOpenAPI"
    ∷ route get "/api/v1/setup/status" no_session "handleSetupStatus"
    ∷ route post "/api/v1/setup" no_session "handleSetupComplete"
    ∷ route post "/api/v1/auth/login" no_session "handleLogin"
    ∷ route post "/api/v1/auth/logout" (needs viewer) "handleLogout"
    ∷ route get "/api/v1/auth/me" (needs viewer) "handleMe"
    ∷ route post "/api/v1/auth/password" (needs viewer) "handleChangeOwnPassword"
    ∷ route get "/api/v1/users" (needs admin) "handleListUsers"
    ∷ route post "/api/v1/users" (needs admin) "handleCreateUser"
    ∷ route put "/api/v1/users/{id}" (needs admin) "handleUpdateUser"
    ∷ route put "/api/v1/users/{id}/password" (needs admin) "handleSetUserPassword"
    ∷ route delete "/api/v1/users/{id}" (needs admin) "handleDeleteUser"
    ∷ route get "/api/v1/system/info" (needs viewer) "handleSystemInfo"
    ∷ route get "/api/v1/logs" (needs viewer) "handleLogs"
    ∷ route get "/api/v1/bootmedia/{format}" (needs viewer) "handleBootMedia"
    ∷ route get "/api/v1/backup/export" (needs admin) "handleBackupExport"
    ∷ route post "/api/v1/backup/import" (needs admin) "handleBackupImport"
    ∷ route get "/api/v1/providers" (needs viewer) "handleListProviders"
    ∷ route get "/api/v1/providers/{name}" (needs viewer) "handleGetProvider"
    ∷ route get "/api/v1/hosts" (needs viewer) "handleListHosts"
    ∷ route post "/api/v1/hosts" (needs operator) "handleCreateHost"
    ∷ route get "/api/v1/hosts/{id}" (needs viewer) "handleGetHost"
    ∷ route put "/api/v1/hosts/{id}" (needs operator) "handleUpdateHost"
    ∷ route delete "/api/v1/hosts/{id}" (needs operator) "handleDeleteHost"
    ∷ route get "/api/v1/installations" (needs viewer) "handleListInstallations"
    ∷ route post "/api/v1/installations" (needs operator) "handleCreateInstallation"
    ∷ route get "/api/v1/installations/{id}" (needs viewer) "handleGetInstallation"
    ∷ route delete "/api/v1/installations/{id}" (needs operator) "handleDeleteInstallation"
    ∷ route get "/api/v1/isos" (needs viewer) "handleListISOs"
    ∷ route get "/api/v1/isos/{id}" (needs viewer) "handleGetISO"
    ∷ route post "/api/v1/isos/upload" (needs operator) "handleUploadISO"
    ∷ route post "/api/v1/isos/scan" (needs operator) "handleScanISOs"
    ∷ route delete "/api/v1/isos/{id}" (needs operator) "handleDeleteISO"
    ∷ route get "/api/v1/network/config" (needs viewer) "handleGetNetworkConfig"
    ∷ route put "/api/v1/network/config" (needs admin) "handlePutNetworkConfig"
    ∷ route get "/api/v1/network/status" (needs viewer) "handleNetworkStatus"
    ∷ route get "/api/v1/profiles" (needs viewer) "handleListProfiles"
    ∷ route post "/api/v1/profiles" (needs operator) "handleCreateProfile"
    ∷ route get "/api/v1/profiles/{id}" (needs viewer) "handleGetProfile"
    ∷ route get "/api/v1/profiles/{id}/versions" (needs viewer) "handleProfileVersions"
    ∷ route get "/api/v1/profiles/{id}/versions/{version}/answer" (needs viewer)
        "handleAnswerPreview"
    ∷ route put "/api/v1/profiles/{id}/versions/{version}/answer-override" (needs operator)
        "handleSetAnswerOverride"
    ∷ route post "/api/v1/profiles/{id}/clone" (needs operator) "handleCloneProfile"
    ∷ route get "/api/v1/profiles/{id}/export" (needs viewer) "handleExportProfile"
    ∷ route post "/api/v1/profiles/import" (needs operator) "handleImportProfile"
    ∷ route put "/api/v1/profiles/{id}" (needs operator) "handleUpdateProfile"
    ∷ route delete "/api/v1/profiles/{id}" (needs operator) "handleDeleteProfile"
    ∷ []

-- Register of boot.go.
unfoldable pub boot_routes : List Route
unfolding route
boot_routes =
    route get "/boot/ipxe" no_session "handleScript"
    ∷ route get "/boot/assets/" no_session "FileServer"
    ∷ route get "/boot/isofile/{id}" no_session "handleISOFile"
    ∷ route get "/boot/iso/{id}/{path...}" no_session "handleISOContent"
    ∷ route get "/boot/answer/{token}" no_session "handleAnswerFile"
    ∷ route get "/boot/cloudinit/{token}/{file}" no_session "handleCloudInit"
    ∷ route post "/boot/report/{token}" no_session "handleReport"
    ∷ []

-- What serves a request: a handler, with the user and the session of its context, the answer to an
-- unknown path below /api/, the embedded frontend, or net/http's own 404 or 405.
pub data Dispatch : Type 0 where
  unknown_endpoint static_files no_page : Dispatch
  refused : ℕ → String → Dispatch
  reached : String → Option (User × Session) → Dispatch

unfoldable pub gated : String → Gate → Dispatch
gated handler (rejected code reason) = refused code reason
gated handler (passed u s) = reached handler (some (u, s))

unfoldable pub enter : Db → HttpRequest → Time → String → RouteAccess → Dispatch
unfolding gated
enter db req now handler no_session = reached handler none
enter db req now handler (needs min) = gated handler (require db min req now)

-- The patterns without a method: /api/, and / where there are static files.
unfoldable pub fallback : Bool → String → Dispatch
unfolding segments_match
fallback has_static path =
    if segments_match (elements "/api/") (elements path)
    then unknown_endpoint
    else if has_static
    then static_files
    else no_page

unfoldable pub to_route : Db → HttpRequest → Time → Dispatch → Option Route → Dispatch
unfolding enter
to_route db req now otherwise none = otherwise
to_route db req now otherwise (some r) = enter db req now r.handler r.access

-- The boot handler may be nil.
unfoldable pub all_routes : Bool → List Route
all_routes has_boot = if has_boot then routes ++ boot_routes else routes

unfoldable pub dispatch : Bool → Bool → Db → HttpRequest → String → Time → Dispatch
unfolding to_route all_routes fallback
dispatch has_boot has_static db req path now =
    to_route db req now (fallback has_static path)
      (first (λ r. route_matches r req.method path) (all_routes has_boot))
