-- ===== src/Api/Installations.antt =====
-- The installation queue: backend/internal/api/handlers_installations.go.
pub mod Queue
pub mod Creation
pub mod Reachable
pub mod Race
use helboot.Prelude.{ℕ, String, Bool, true, false, ◌&&◌, Option, none, some, ltb, if◌then◌else◌}
use helboot.Time.{Time}
use helboot.Model.{User, Host, Profile, ProfileVersion, Installation}
use helboot.Store.Db.{Db, Result, ok, err, StoreError, not_found}
use helboot.Store.Hosts.{host_by_id}
use helboot.Store.Profiles.{profile_by_id, profile_version_number}
use helboot.Store.Installations.{
  create_installation, installation_by_id, active_installation_for_host, delete_installation,
}
use helboot.Api.Respond.{
  Response, done, failed, Handled, internal_error, store_error, decode_json, path_id, on_ok, audit,
}

pub record CreateRequest : Type 0 where
  pub host_id : ℕ
  -- Overrides the host's profile.
  pub profile_id : Option ℕ

unfoldable pub or_else : Option ℕ → Option ℕ → Option ℕ
or_else none b = b
or_else (some a) b = some a

is_none : Option ℕ → Bool
is_none none = true
is_none (some a) = false

-- Unknown rows named by the request are the client's mistake.
unfoldable pub unknown : {A : Type 0} → String → StoreError → Response A
unknown code not_found = failed 400 code
unknown code _ = internal_error

-- The host's pinned version when its own profile is used, else the profile's current one.
unfoldable pub version_to_install : CreateRequest → Host → Profile → ℕ
unfolding is_none
version_to_install req host profile =
    if is_none req.profile_id && ltb 0 host.profile_version
    then host.profile_version
    else profile.current_version

-- auth.NewToken may fail; the caller is the user of the request's context.
unfoldable pub insert_installation :
    Db → User → Host → ProfileVersion → Option String → Time → Handled Installation
insert_installation db caller host version none now = (internal_error, db)
insert_installation db caller host version (some token) now =
    elim (create_installation db host.id version.id token now) [
      | err e ↦ (internal_error, db)
      | ok (inst, db') ↦
          (done 201 inst, audit db' (some caller) "installation.create" "installation" inst.id)
    ]

-- From the check for an active installation on.
unfoldable pub queue_for :
    Db
    → User
    → CreateRequest
    → Host
    → Profile
    → Option String
    → Time
    → Result Installation
    → Handled Installation
unfolding insert_installation
queue_for db caller req host profile token now (ok active) =
    (failed 409 "installation.already_active", db)
queue_for db caller req host profile token now (err not_found) =
    on_ok (profile_version_number db profile.id (version_to_install req host profile))
      (λ _. internal_error) db λ version. insert_installation db caller host version token now
queue_for db caller req host profile token now (err _) = (internal_error, db)

queue_profile :
    Db → User → CreateRequest → Host → Option String → Time → Option ℕ → Handled Installation
queue_profile db caller req host token now none = (failed 400 "installation.no_profile", db)
queue_profile db caller req host token now (some id) =
    on_ok (profile_by_id db id) (unknown "installation.unknown_profile") db λ profile.
      queue_for db caller req host profile token now (active_installation_for_host db host.id)

unfoldable pub handle_create_installation :
    Db → User → Option CreateRequest → Option String → Time → Handled Installation
unfolding unknown or_else queue_profile
handle_create_installation db caller body token now = decode_json body db λ req.
    on_ok (host_by_id db req.host_id) (unknown "installation.unknown_host") db
      λ host. queue_profile db caller req host token now (or_else req.profile_id host.profile_id)

cancelled : Db → User → ℕ → Result Db → Handled Unit
cancelled db caller id (ok db') =
    (done 204 tt, audit db' (some caller) "installation.cancel" "installation" id)
cancelled db caller id (err not_found) = (failed 409 "installation.not_cancellable", db)
cancelled db caller id (err _) = (internal_error, db)

cancel : Db → User → ℕ → Handled Unit
unfolding cancelled
cancel db caller id =
    on_ok (installation_by_id db id) store_error db
      λ _. cancelled db caller id (delete_installation db id)

-- A waiting installation is cancelled; others are history.
unfoldable pub handle_delete_installation : Db → User → Option ℕ → Handled Unit
unfolding cancel
handle_delete_installation db caller raw = path_id raw db (cancel db caller)

unfoldable pub handle_get_installation : Db → Option ℕ → Handled Installation
handle_get_installation db raw =
    path_id raw db λ id. on_ok (installation_by_id db id) store_error db λ inst. (done 200 inst, db)
