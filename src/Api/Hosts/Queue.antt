-- ===== src/Api/Hosts/Queue.antt =====
-- The handlers of hosts and the queue: backend/internal/api/handlers_hosts.go.
use helboot.Prelude.{
  ℕ, String, ◌≡◌, refl, not, Option, none, some, ◌==◌, ℕ_eq, inl, inr, Bool-cases,
}
use helboot.Time.{Time}
use helboot.Model.{User, Host}
use helboot.Store.Db.{Db, Result, ok, err, Result-cases}
use helboot.Store.Profiles.{profile_by_id, profile_version_number}
use helboot.Store.Hosts.{
  firmware_valid, host_by_id, host_by_mac, delete_host, update_host, create_host,
}
use helboot.Store.Installations.Active.{
  OneActive, delete_host-OneActive, create_host-OneActive, update_host-OneActive,
}
use helboot.Api.Respond.{Handled}
use helboot.Api.Installations.Queue.{audit-OneActive}
use helboot.Api.Respond.Keeps.{unless-keeps, path_id-keeps, decode_json-keeps, on_ok-keeps}
use helboot.Network.Mac.{normalize_mac}
use helboot.Api.Hosts.{
  HostRequest, validate, validate_mac, apply, blank_host, resolve_profile_pin, insert_host,
  write_host, handle_create_host, handle_update_host, handle_delete_host, delete_at,
}

delete_at-OneActive :
    (db : Db) (caller : User) (id : ℕ) (r : Result Db)
    → delete_host db id ≡ r
    → OneActive db
    → OneActive (delete_at db caller id r).1
unfolding delete_at
delete_at-OneActive db caller id (ok db') h v =
    audit-OneActive db' (some caller) "host.delete" "host" id (delete_host-OneActive db db' id h v)
delete_at-OneActive db caller id (err e) h v = v

pub handle_delete_host-OneActive :
    (db : Db) (caller : User) (raw : Option ℕ)
    → OneActive db
    → OneActive (handle_delete_host db caller raw).1
unfolding handle_delete_host
handle_delete_host-OneActive db caller raw v =
    path_id-keeps OneActive db v raw _
      λ id. delete_at-OneActive db caller id (delete_host db id) refl v

insert_host-OneActive :
    (db : Db) (caller : User) (now : Time) (req : HostRequest) (r : Result Host)
    → OneActive db
    → OneActive (insert_host db caller now req r).1
unfolding insert_host
insert_host-OneActive db caller now req (ok h) v = v
insert_host-OneActive db caller now req (err e) v =
    let h = apply req blank_host in
    elim (Result-cases (create_host db h now)) [
      | inl (e, g) ↦ rw (insert_host, g) v
      | inr ((row, db'), g) ↦
          rw (insert_host, g)
            (audit-OneActive db' (some caller) "host.create" "host" row.id
              (create_host-OneActive db db' h row now g v))
    ]

validate-OneActive :
    (db : Db) (req : HostRequest) (k : HostRequest → Handled Host)
    → OneActive db
    → ((r : HostRequest) → OneActive (k r).1)
    → OneActive (validate req db k).1
unfolding validate validate_mac
validate-OneActive db req k v h = go (normalize_mac req.mac)
  where
    go : (m : Option String) → OneActive (validate_mac req db k m).1
    go none = v
    go (some mac) =
        unless-keeps OneActive db v (not (firmware_valid req.firmware)) 400 "host.invalid_firmware"
          (k (record req { mac = mac })) (λ _. h (record req { mac = mac }))

resolve_profile_pin-OneActive :
    (db : Db) (req : HostRequest) (k : HostRequest → Handled Host) (id : Option ℕ)
    → OneActive db
    → ((r : HostRequest) → OneActive (k r).1)
    → OneActive (resolve_profile_pin db req k id).1
unfolding resolve_profile_pin
resolve_profile_pin-OneActive db req k none v h = h (record req { profile_version = 0 })
resolve_profile_pin-OneActive db req k (some id) v h =
    on_ok-keeps OneActive db v (profile_by_id db id) _ _ λ profile g.
      elim (Bool-cases (req.profile_version == 0)) [
        | inl e ↦ rw e (h (record req { profile_version = profile.current_version }))
        | inr e ↦ rw e (
            on_ok-keeps OneActive db v (profile_version_number db profile.id req.profile_version) _
              _ (λ version g'. h req))
      ]

pub handle_create_host-OneActive :
    (db : Db) (caller : User) (body : Option HostRequest) (now : Time)
    → OneActive db
    → OneActive (handle_create_host db caller body now).1
unfolding handle_create_host
handle_create_host-OneActive db caller body now v = decode_json-keeps OneActive db v body _ λ r.
    validate-OneActive db r _ v λ req.
      resolve_profile_pin-OneActive db req _ req.profile_id v
        λ pinned. insert_host-OneActive db caller now pinned (host_by_mac db pinned.mac) v

write_host-OneActive :
    (db : Db) (existing : Host) (now : Time) (req : HostRequest)
    → OneActive db
    → OneActive (write_host db existing now req).1
unfolding write_host
write_host-OneActive db existing now req v =
    let h = apply req existing in
    elim (Result-cases (update_host db h now)) [
      | inl (e, g) ↦ rw (write_host, g) v
      | inr ((row, db'), g) ↦ rw (write_host, g) (update_host-OneActive db db' h row now g v)
    ]

pub handle_update_host-OneActive :
    (db : Db) (raw : Option ℕ) (body : Option HostRequest) (now : Time)
    → OneActive db
    → OneActive (handle_update_host db raw body now).1
unfolding handle_update_host
handle_update_host-OneActive db raw body now v = path_id-keeps OneActive db v raw _ λ id.
    on_ok-keeps OneActive db v (host_by_id db id) _ _ λ existing g.
      decode_json-keeps OneActive db v body _ λ r. validate-OneActive db r _ v λ req.
        resolve_profile_pin-OneActive db req (write_host db existing now) req.profile_id v
          λ pinned. write_host-OneActive db existing now pinned v
