-- ===== src/Boot/Context.antt =====
-- What one installation boots with: loadInstallContext and contextByToken of
-- backend/internal/boot/install.go.
use Prim.Native.String.{◌++◌}
use helboot.Prelude.{ℕ, String, Option, none, some}
use helboot.Model.{Host, Installation, Profile, ProfileVersion, IsoImage}
use helboot.Store.Db.{Db, Result, ok, err, not_found}
use helboot.Store.Isos.{iso_by_id}
use helboot.Store.Hosts.{host_by_id}
use helboot.Store.Profiles.{profile_by_id, profile_version_by_id}
use helboot.Store.Installations.{installation_by_token, active_installation_for_host}
use helboot.Provider.Manifest.{Manifest, Registry}

pub record InstallContext : Type 0 where
  pub host : Host
  pub install : Installation
  pub version : ProfileVersion
  pub profile : Profile
  pub iso : IsoImage
  pub manifest : Manifest

-- A nil context with no reason, one with a reason, a failure of the store, or the context.
pub data Loaded : Type 0 where
  nothing_queued : Loaded
  not_bootable : String → Loaded
  store_failure : Loaded
  loaded : InstallContext → Loaded

unfoldable pub with_iso :
    Host → Installation → ProfileVersion → Profile → Manifest → Result IsoImage → Loaded
with_iso host i v p m (err e) = not_bootable "assigned ISO is missing"
with_iso host i v p m (ok iso) =
    loaded (record { host = host; install = i; version = v; profile = p; iso = iso; manifest = m })

unfoldable pub with_iso_id :
    Db → Host → Installation → ProfileVersion → Profile → Manifest → Option ℕ → Loaded
unfolding with_iso
with_iso_id db host i v p m none = not_bootable "profile has no ISO assigned"
with_iso_id db host i v p m (some id) = with_iso host i v p m (iso_by_id db id)

unfoldable pub with_manifest :
    Db → Host → Installation → ProfileVersion → Profile → Option Manifest → Loaded
unfolding with_iso_id
with_manifest db host i v p none = not_bootable ("provider " ++ (p.provider ++ " is not installed"))
with_manifest db host i v p (some m) = with_iso_id db host i v p m p.iso_id

unfoldable pub with_profile :
    Db → Registry → Host → Installation → ProfileVersion → Result Profile → Loaded
unfolding with_manifest
with_profile db reg host i v (err e) = not_bootable "profile missing"
with_profile db reg host i v (ok p) = with_manifest db host i v p (reg p.provider)

unfoldable pub with_version : Db → Registry → Host → Installation → Result ProfileVersion → Loaded
unfolding with_profile
with_version db reg host i (err e) = not_bootable "profile version missing"
with_version db reg host i (ok v) = with_profile db reg host i v (profile_by_id db v.profile_id)

unfoldable pub with_installation : Db → Registry → Host → Result Installation → Loaded
unfolding with_version
with_installation db reg host (err not_found) = nothing_queued
with_installation db reg host (err e) = store_failure
with_installation db reg host (ok i) =
    with_version db reg host i (profile_version_by_id db i.profile_version_id)

unfoldable pub load_install_context : Db → Registry → Host → Loaded
unfolding with_installation
load_install_context db reg host =
    with_installation db reg host (active_installation_for_host db host.id)

-- The context of a token-scoped endpoint, or the status of the error response.
pub data ByToken : Type 0 where
  refused : ℕ → ByToken
  resolved : InstallContext → ByToken

unfoldable pub context_of_loaded : Loaded → ByToken
context_of_loaded (loaded ic) = resolved ic
context_of_loaded _ = refused 404

unfoldable pub host_context : Db → Registry → Result Host → ByToken
unfolding context_of_loaded
host_context db reg (err e) = refused 404
host_context db reg (ok host) = context_of_loaded (load_install_context db reg host)

unfoldable pub token_context : Db → Registry → Result Installation → ByToken
unfolding host_context
token_context db reg (err not_found) = refused 404
token_context db reg (err e) = refused 500
token_context db reg (ok i) = host_context db reg (host_by_id db i.host_id)

unfoldable pub context_by_token : Db → Registry → String → ByToken
unfolding token_context
context_by_token db reg token = token_context db reg (installation_by_token db token)
