-- ===== src/Api/Installations/Queue.antt =====
-- What the handlers make of the queue: backend/internal/api/handlers_installations.go with the
-- handlers that change an installation in backend/internal/api/handlers_hosts.go and
-- backend/internal/boot.
use helboot.Prelude.{ℕ, String, ◌≡◌, refl, Option, none, some, ℕ_eq, inl, inr}
use helboot.Time.{Time}
use helboot.Model.{User, Host, Profile, ProfileVersion, Installation}
use helboot.Store.Db.{Db, Result, ok, err, Result-cases, not_found}
use helboot.Store.Users.{add_audit}
use helboot.Store.Profiles.{profile_by_id, profile_version_number}
use helboot.Store.Hosts.{host_by_id}
use helboot.Store.Installations.{
  installation_by_id, create_installation, active_installation_for_host, delete_installation,
}
use helboot.Store.Installations.Active.{
  OneActive, create_installation-OneActive, delete_installation-OneActive,
}
use helboot.Api.Respond.{internal_error, audit}
use helboot.Api.Respond.Keeps.{path_id-keeps, decode_json-keeps, on_ok-keeps}
use helboot.Api.Installations.{
  CreateRequest, version_to_install, queue_for, handle_create_installation,
  handle_delete_installation, insert_installation, queue_profile, or_else, cancel, cancelled,
}

pub audit-OneActive :
    (db : Db) (u : Option User) (action entity : String) (id : ℕ)
    → OneActive db
    → OneActive (audit db u action entity id)
unfolding audit add_audit
audit-OneActive db none action entity id v = record { at_host = v.at_host }
audit-OneActive db (some u) action entity id v = record { at_host = v.at_host }

insert_installation-OneActive :
    (db : Db) (caller : User) (host : Host) (version : ProfileVersion) (token : Option String)
    (now : Time)
    → active_installation_for_host db host.id ≡ err not_found
    → OneActive db
    → OneActive (insert_installation db caller host version token now).1
unfolding insert_installation
insert_installation-OneActive db caller host version none now free v = v
insert_installation-OneActive db caller host version (some token) now free v =
    elim (Result-cases (create_installation db host.id version.id token now)) [
      | inl (e, h) ↦ rw (insert_installation, h) v
      | inr ((i, db'), h) ↦
          rw (insert_installation, h)
            (audit-OneActive db' (some caller) "installation.create" "installation" i.id
              (create_installation-OneActive db db' host.id version.id token now i free h v))
    ]

queue_for-OneActive :
    (db : Db) (caller : User) (req : CreateRequest) (host : Host) (profile : Profile)
    (token : Option String) (now : Time) (r : Result Installation)
    → active_installation_for_host db host.id ≡ r
    → OneActive db
    → OneActive (queue_for db caller req host profile token now r).1
unfolding queue_for
queue_for-OneActive db caller req host profile token now (ok i) h v = v
queue_for-OneActive db caller req host profile token now (err not_found) h v =
    on_ok-keeps OneActive db v
      (profile_version_number db profile.id (version_to_install req host profile))
      (λ _. internal_error) (λ version. insert_installation db caller host version token now)
      (λ version g. insert_installation-OneActive db caller host version token now h v)
queue_for-OneActive db caller req host profile token now (err e) h v = v

queue_profile-OneActive :
    (db : Db) (caller : User) (req : CreateRequest) (host : Host) (token : Option String)
    (now : Time) (profile : Option ℕ)
    → OneActive db
    → OneActive (queue_profile db caller req host token now profile).1
unfolding queue_profile
queue_profile-OneActive db caller req host token now none v = v
queue_profile-OneActive db caller req host token now (some id) v =
    on_ok-keeps OneActive db v (profile_by_id db id) _ _ λ profile g.
      queue_for-OneActive db caller req host profile token now
        (active_installation_for_host db host.id) refl v

pub handle_create_installation-OneActive :
    (db : Db) (caller : User) (body : Option CreateRequest) (token : Option String) (now : Time)
    → OneActive db
    → OneActive (handle_create_installation db caller body token now).1
unfolding handle_create_installation
handle_create_installation-OneActive db caller body token now v =
    decode_json-keeps OneActive db v body _ λ req.
      on_ok-keeps OneActive db v (host_by_id db req.host_id) _ _ λ host g.
        queue_profile-OneActive db caller req host token now
          (or_else req.profile_id host.profile_id) v

cancelled-OneActive :
    (db : Db) (caller : User) (id : ℕ) (r : Result Db)
    → delete_installation db id ≡ r
    → OneActive db
    → OneActive (cancelled db caller id r).1
unfolding cancelled
cancelled-OneActive db caller id (ok db') h v =
    audit-OneActive db' (some caller) "installation.cancel" "installation" id
      (delete_installation-OneActive db db' id h v)
cancelled-OneActive db caller id (err not_found) h v = v
cancelled-OneActive db caller id (err e) h v = v

pub handle_delete_installation-OneActive :
    (db : Db) (caller : User) (raw : Option ℕ)
    → OneActive db
    → OneActive (handle_delete_installation db caller raw).1
unfolding handle_delete_installation cancel
handle_delete_installation-OneActive db caller raw v = path_id-keeps OneActive db v raw _ λ id.
    on_ok-keeps OneActive db v (installation_by_id db id) _ _
      λ i g. cancelled-OneActive db caller id (delete_installation db id) refl v
