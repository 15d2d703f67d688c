-- ===== src/Api/Hosts.antt =====
-- The inventory of hosts: backend/internal/api/handlers_hosts.go.
pub mod Queue
use helboot.Prelude.{
  ℕ, String, Bool, true, false, not, List, [], Option, none, some, ◌==◌, ℕ_eq, if◌then◌else◌,
}
use helboot.Time.{Time}
use helboot.Model.{User, Host, ready}
use helboot.Store.Db.{Db, Result, ok, err, StoreError, not_found}
use helboot.Store.Hosts.{
  firmware_valid, host_by_id, host_by_mac, create_host, update_host, delete_host,
}
use helboot.Store.Profiles.{profile_by_id, profile_version_number}
use helboot.Network.Mac.{normalize_mac}
use helboot.Api.Respond.{
  Response, done, failed, Handled, internal_error, store_error, decode_json, path_id, on_ok, unless,
  audit,
}

pub record HostRequest : Type 0 where
  pub mac : String
  pub hostname : String
  pub vendor : String
  pub model : String
  pub serial : String
  pub asset_id : String
  pub tags : List String
  pub firmware : String
  pub arch : String
  pub profile_id : Option ℕ
  pub profile_version : ℕ

unfoldable pub validate_mac :
    HostRequest → Db → (HostRequest → Handled Host) → Option String → Handled Host
validate_mac req db k none = (failed 400 "host.invalid_mac", db)
validate_mac req db k (some mac) =
    unless (not (firmware_valid req.firmware)) 400 "host.invalid_firmware" db
      (k (record req { mac = mac }))

-- validate: the request with its MAC in normal form goes on.
unfoldable pub validate : HostRequest → Db → (HostRequest → Handled Host) → Handled Host
unfolding validate_mac
validate req db k = validate_mac req db k (normalize_mac req.mac)

unfoldable pub apply : HostRequest → Host → Host
apply req h = record h {
  mac = req.mac;
  hostname = req.hostname;
  vendor = req.vendor;
  model = req.model;
  serial = req.serial;
  asset_id = req.asset_id;
  tags = req.tags;
  firmware = req.firmware;
  arch = req.arch;
  profile_id = req.profile_id;
  profile_version = req.profile_version;
}

unknown : String → StoreError → Response Host
unknown code not_found = failed 400 code
unknown code _ = internal_error

-- The version that resolveProfilePin pins, or the response that ends the handler.
unfoldable pub resolve_profile_pin :
    Db → HostRequest → (HostRequest → Handled Host) → Option ℕ → Handled Host
unfolding unknown
resolve_profile_pin db req k none = k (record req { profile_version = 0 })
resolve_profile_pin db req k (some id) =
    on_ok (profile_by_id db id) (unknown "host.unknown_profile") db λ profile.
      if req.profile_version == 0
      then k (record req { profile_version = profile.current_version })
      else on_ok (profile_version_number db profile.id req.profile_version)
          (unknown "host.unknown_profile_version") db (λ _. k req)

-- `var h model.Host`, with the status of a host that was registered by hand.
abbrev pub blank_host : Host
blank_host = record {
  id = 0;
  mac = "";
  hostname = "";
  vendor = "";
  model = "";
  serial = "";
  asset_id = "";
  tags = [];
  firmware = "";
  arch = "";
  profile_id = none;
  profile_version = 0;
  status = ready;
  created_at = 0;
  updated_at = 0;
}

unfoldable pub insert_host : Db → User → Time → HostRequest → Result Host → Handled Host
insert_host db caller now req (ok _) = (failed 409 "host.mac_exists", db)
insert_host db caller now req (err _) = elim (create_host db (apply req blank_host) now) [
  | err e ↦ (internal_error, db)
  | ok (created, db') ↦ (done 201 created, audit db' (some caller) "host.create" "host" created.id)
]

unfoldable pub handle_create_host : Db → User → Option HostRequest → Time → Handled Host
unfolding insert_host
handle_create_host db caller body now = decode_json body db λ r. validate r db λ req.
    resolve_profile_pin db req
      (λ pinned. insert_host db caller now pinned (host_by_mac db pinned.mac)) req.profile_id

unfoldable pub handle_get_host : Db → Option ℕ → Handled Host
handle_get_host db raw =
    path_id raw db λ id. on_ok (host_by_id db id) store_error db λ h. (done 200 h, db)

unfoldable pub write_host : Db → Host → Time → HostRequest → Handled Host
write_host db existing now req = elim (update_host db (apply req existing) now) [
  | err e ↦ (store_error e, db)
  | ok (updated, db') ↦ (done 200 updated, db')
]

unfoldable pub handle_update_host : Db → Option ℕ → Option HostRequest → Time → Handled Host
unfolding write_host
handle_update_host db raw body now = path_id raw db λ id.
    on_ok (host_by_id db id) store_error db λ existing. decode_json body db λ r.
      validate r db λ req. resolve_profile_pin db req (write_host db existing now) req.profile_id

unfoldable pub delete_at : Db → User → ℕ → Result Db → Handled Unit
delete_at db caller id (err e) = (store_error e, db)
delete_at db caller id (ok db') = (done 204 tt, audit db' (some caller) "host.delete" "host" id)

unfoldable pub handle_delete_host : Db → User → Option ℕ → Handled Unit
unfolding delete_at
handle_delete_host db caller raw = path_id raw db λ id. delete_at db caller id (delete_host db id)
