-- ===== src/Api/Profiles.antt =====
-- The profiles: backend/internal/api/handlers_profiles.go, handlers_profiles_transfer.go and
-- handleSetAnswerOverride of handlers_profiles_answer.go. Of encoding/json, `json_object` unmarshals
-- into a map, `json_valid` tests a text; `renders` is answer.Render with the preview's parameters. A configuration of no bytes is `none`.
pub mod Keeping
pub mod History
use Prim.Native.String.{◌++◌}
use helboot.Prelude.{
  ℕ, String, Bool, true, false, not, ◌&&◌, ◌||◌, [], ◌∷◌, List, Option, none, some, ltb, ◌==◌, ℕ_eq,
  String_eq, if◌then◌else◌,
}
use helboot.Time.{Time}
use helboot.Model.{User, Profile, ProfileVersion}
use helboot.Store.Db.{Db, Result, ok, err, StoreError, not_found, version_in_use}
use helboot.Store.Profiles.{
  profile_by_id, profile_version_number, create_profile, update_profile, delete_profile,
  set_answer_override,
}
use helboot.Provider.Value.{Doc}
use helboot.Provider.Schema.{validate_config, Problem}
use helboot.Provider.Manifest.{Manifest, Registry}
use helboot.Answer.{Rendered, rendered, render_error, panicked}
use helboot.Api.Respond.{
  Response, done, failed, Handled, internal_error, store_error, decode_json, path_id, on_ok, unless,
  audit,
}

pub record CreateProfileRequest : Type 0 where
  pub name : String
  pub provider : String
  pub iso_id : Option ℕ
  pub config : Option String

pub record UpdateProfileRequest : Type 0 where
  pub name : String
  pub iso_id : Option ℕ
  pub config : Option String
  pub save_as_new_version : Bool

-- The portable document: its type, format version, name, provider and configuration.
pub record ProfileDocument : Type 0 where
  pub type : String
  pub version : ℕ
  pub name : String
  pub provider : String
  pub config : Option String

-- A panic is answered by recoverPanics.
unless_problems : Option (List Problem) → Db → Handled Profile → Handled Profile
unless_problems none db k = (internal_error, db)
unless_problems (some []) db k = k
unless_problems (some (p ∷ ps)) db k = (failed 400 "profile.invalid_config_field", db)

checked : Manifest → Option Doc → Db → Handled Profile → Handled Profile
unfolding unless_problems
checked m none db k = (failed 400 "profile.invalid_config", db)
checked m (some doc) db k = unless_problems (validate_config m.settings_schema doc) db k

-- The result of the store's insertion, for a handler that answers an error as given.
unfoldable pub profile_created :
    Db → User → String → Response Profile → Result (Profile × Db) → Handled Profile
profile_created db caller action failure (err e) = (failure, db)
profile_created db caller action failure (ok (p, db')) =
    (done 201 p, audit db' (some caller) action "profile" p.id)

unfoldable pub config_or_empty : Option String → String
config_or_empty none = "{}"
config_or_empty (some raw) = raw

module _ (json_object : String → Option Doc) where
  -- validProfileConfig, on a configuration that is not empty.
  unfoldable pub valid_profile_config :
      Manifest → Option String → Db → Handled Profile → Handled Profile
  unfolding checked
  valid_profile_config m none db k = k
  valid_profile_config m (some raw) db k = checked m (json_object raw) db k

  unfoldable pub create_with :
      Db → User → CreateProfileRequest → Time → Option Manifest → Handled Profile
  create_with db caller req now none = (failed 400 "profile.unknown_provider", db)
  create_with db caller req now (some m) = valid_profile_config m req.config db (
      profile_created db caller "profile.create" internal_error
        (create_profile db req.name req.provider req.iso_id (config_or_empty req.config) now))

  unfoldable pub handle_create_profile :
      Db → Registry → User → Option CreateProfileRequest → Time → Handled Profile
  handle_create_profile db reg caller body now = decode_json body db λ req.
      unless (req.name == "") 400 "profile.invalid_name" db
        (create_with db caller req now (reg req.provider))

unfoldable pub handle_get_profile : Db → Option ℕ → Handled Profile
handle_get_profile db raw =
    path_id raw db λ id. on_ok (profile_by_id db id) store_error db λ p. (done 200 p, db)

-- After the update; the profile is read again for the response.
unfoldable pub profile_updated : Db → User → ℕ → Bool → Result Db → Handled Profile
profile_updated db caller id new_version (err version_in_use) =
    (failed 409 "profile.version_in_use", db)
profile_updated db caller id new_version (err e) = (store_error e, db)
profile_updated db caller id new_version (ok db') =
    on_ok (profile_by_id db' id) store_error db' λ updated. (
      done 200 updated,
      if new_version then audit db' (some caller) "profile.new_version" "profile" id else db',
    )

module _ (json_object : String → Option Doc) (json_valid : String → Bool) where
  -- Where the provider is gone, the configuration need only be a JSON document.
  unfoldable pub check_update :
      Option Manifest → Option String → Db → Handled Profile → Handled Profile
  check_update m none db k = k
  check_update (some m) (some raw) db k = valid_profile_config json_object m (some raw) db k
  check_update none (some raw) db k =
      unless (not (json_valid raw)) 400 "profile.invalid_config" db k

  unfoldable pub handle_update_profile :
      Db → Registry → User → Option ℕ → Option UpdateProfileRequest → Time → Handled Profile
  handle_update_profile db reg caller raw body now = path_id raw db λ id.
      on_ok (profile_by_id db id) store_error db λ existing. decode_json body db λ req.
        unless (req.name == "") 400 "profile.invalid_name" db (
          check_update (reg existing.provider) req.config db (
            profile_updated db caller id req.save_as_new_version
              (update_profile db id req.name req.iso_id req.config req.save_as_new_version now)))

unfoldable pub profile_deleted : Db → User → ℕ → Result Db → Handled Unit
profile_deleted db caller id (err e) = (store_error e, db)
profile_deleted db caller id (ok db') =
    (done 204 tt, audit db' (some caller) "profile.delete" "profile" id)

unfoldable pub handle_delete_profile : Db → User → Option ℕ → Handled Unit
handle_delete_profile db caller raw =
    path_id raw db λ id. profile_deleted db caller id (delete_profile db id)

-- The body is the name of the clone; the empty one stands for the source's with a suffix.
unfoldable pub handle_clone_profile : Db → User → Option ℕ → Option String → Time → Handled Profile
handle_clone_profile db caller raw body now = path_id raw db λ id.
    on_ok (profile_by_id db id) store_error db λ source. decode_json body db λ name.
      on_ok (profile_version_number db source.id source.current_version) (λ _. internal_error) db
        λ version. profile_created db caller "profile.clone" (failed 409 "profile.name_exists") (
          create_profile db (if name == "" then source.name ++ " (copy)" else name) source.provider
            source.iso_id version.config now)

unfoldable pub handle_export_profile : Db → Option ℕ → Handled ProfileDocument
handle_export_profile db raw = path_id raw db λ id.
    on_ok (profile_by_id db id) store_error db λ profile.
      on_ok (profile_version_number db profile.id profile.current_version) (λ _. internal_error) db
        λ version. (
          done 200 (record {
            type = "helboot-profile";
            version = 1;
            name = profile.name;
            provider = profile.provider;
            config = some version.config;
          }),
          db,
        )

is_absent : Option Manifest → Bool
is_absent none = true
is_absent (some m) = false

invalid_json : (String → Bool) → Option String → Bool
invalid_json json_valid none = false
invalid_json json_valid (some raw) = not (json_valid raw)

-- The document is not checked against the settings schema.
unfoldable pub handle_import_profile :
    (String → Bool) → Db → Registry → User → Option ProfileDocument → Time → Handled Profile
unfolding is_absent invalid_json
handle_import_profile json_valid db reg caller body now = decode_json body db λ doc.
    unless (not (doc.type == "helboot-profile") || not (doc.version == 1)) 400
      "profile.invalid_document" db
      (unless (doc.name == "") 400 "profile.invalid_name" db (
        unless (is_absent (reg doc.provider)) 400 "profile.unknown_provider" db (
          unless (invalid_json json_valid doc.config) 400 "profile.invalid_config" db (
            profile_created db caller "profile.import" (failed 409 "profile.name_exists")
              (create_profile db doc.name doc.provider none (config_or_empty doc.config) now)))))

unfoldable pub override_set : Db → User → ℕ → String → Result Db → Handled Unit
override_set db caller id content (err e) = (store_error e, db)
override_set db caller id content (ok db') =
    let action =
      if content == "" then "profile.answer_override.clear" else "profile.answer_override.set" in
    (done 204 tt, audit db' (some caller) action "profile" id)

unfoldable pub unknown_version {ℓ} : {A : Type ℓ} → StoreError → Response A
unknown_version not_found = failed 404 "profile.unknown_version"
unknown_version _ = internal_error

-- An override that is not empty must render; a panic is answered by recoverPanics.
unfoldable pub check_override : Bool → Rendered → Db → Handled Unit → Handled Unit
check_override true r db k = k
check_override false (rendered out) db k = k
check_override false (render_error e) db k = (failed 422 "profile.answer_render_failed", db)
check_override false panicked db k = (internal_error, db)

-- profileVersionFromPath comes first: `version` is `none` for a segment that Atoi refuses.
unfoldable pub handle_set_answer_override :
    (String → String → Rendered) → Db → User → Option ℕ → Option ℕ → Option String → Handled Unit
unfolding override_set unknown_version check_override
handle_set_answer_override renders db caller raw version body = path_id raw db λ id.
    path_id version db λ n. on_ok (profile_by_id db id) store_error db λ profile.
      on_ok (profile_version_number db profile.id n) unknown_version db λ v.
        decode_json body db λ content.
          check_override (content == "") (renders content v.config) db (
            override_set db caller profile.id content
              (set_answer_override db profile.id v.version content))
