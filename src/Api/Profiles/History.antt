-- ===== src/Api/Profiles/History.antt =====
-- The configuration of an installation's version under any sequence of the handlers of
-- backend/internal/api/handlers_profiles.go, handlers_profiles_transfer.go and
-- handlers_profiles_answer.go, one at a time.
use Prim.Native.String.{◌++◌}
use helboot.Prelude.{
  ℕ, String, refl, Bool, not, ◌||◌, Option, none, ◌==◌, ℕ_eq, String_eq, if◌then◌else◌,
}
use helboot.Time.{Time}
use helboot.Model.{User}
use helboot.Store.Db.{Db}
use helboot.Store.Profiles.{profile_by_id, profile_version_number, delete_profile}
use helboot.Store.Profiles.Pinned.{Pinned}
use helboot.Provider.Value.{Doc}
use helboot.Provider.Manifest.{Registry}
use helboot.Answer.{Rendered}
use helboot.Api.Respond.{failed}
use helboot.Api.Respond.Keeps.{unless-keeps, path_id-keeps, decode_json-keeps, on_ok-keeps}
use helboot.Api.Profiles.{
  CreateProfileRequest, UpdateProfileRequest, ProfileDocument, config_or_empty,
  handle_create_profile, handle_update_profile, handle_delete_profile, handle_clone_profile,
  is_absent, invalid_json, handle_import_profile, handle_set_answer_override,
}
use helboot.Api.Profiles.Keeping.{
  profile_created-Pinned, profile_updated-Pinned, profile_deleted-Pinned, override_set-Pinned,
  check_override-Pinned, create_with-Pinned, check_update-Pinned,
}

module _ (json_object : String → Option Doc) (json_valid : String → Bool)
    (renders : String → String → Rendered) (reg : Registry) where
  pub data ProfileStep (db : Db) : Db → Type 0 where
    create :
        (caller : User) (body : Option CreateProfileRequest) (now : Time)
        → ProfileStep db (handle_create_profile json_object db reg caller body now).1
    edit :
        (caller : User) (id : Option ℕ) (body : Option UpdateProfileRequest) (now : Time)
        → ProfileStep db (handle_update_profile json_object json_valid db reg caller id body now).1
    remove : (caller : User) (id : Option ℕ) → ProfileStep db (handle_delete_profile db caller id).1
    clone :
        (caller : User) (id : Option ℕ) (body : Option String) (now : Time)
        → ProfileStep db (handle_clone_profile db caller id body now).1
    import :
        (caller : User) (body : Option ProfileDocument) (now : Time)
        → ProfileStep db (handle_import_profile json_valid db reg caller body now).1
    override :
        (caller : User) (id version : Option ℕ) (body : Option String)
        → ProfileStep db (handle_set_answer_override renders db caller id version body).1

  pub data ProfileSteps (start : Db) : Db → Type 0 where
    none_yet : ProfileSteps start start
    next : {db db' : Db} → ProfileSteps start db → ProfileStep db db' → ProfileSteps start db'

  module _ (version : ℕ) (config : String) where
    handle_create_profile-Pinned :
        (db : Db) (caller : User) (body : Option CreateProfileRequest) (now : Time)
        → Pinned version config db
        → Pinned version config (handle_create_profile json_object db reg caller body now).1
    unfolding handle_create_profile
    handle_create_profile-Pinned db caller body now v =
        decode_json-keeps (Pinned version config) db v body _ λ req.
          unless-keeps (Pinned version config) db v (req.name == "") 400 "profile.invalid_name" _
            λ _.
              create_with-Pinned version config json_object json_valid db caller req now
                (reg req.provider) v

    handle_update_profile-Pinned :
        (db : Db) (caller : User) (raw : Option ℕ) (body : Option UpdateProfileRequest) (now : Time)
        → Pinned version config db
        → Pinned version config
            (handle_update_profile json_object json_valid db reg caller raw body now).1
    unfolding handle_update_profile
    handle_update_profile-Pinned db caller raw body now v =
        path_id-keeps (Pinned version config) db v raw _ λ id.
          on_ok-keeps (Pinned version config) db v (profile_by_id db id) _ _ λ existing found.
            decode_json-keeps (Pinned version config) db v body _ λ req.
              unless-keeps (Pinned version config) db v (req.name == "") 400 "profile.invalid_name"
                _
                λ _.
                  check_update-Pinned version config json_object json_valid (reg existing.provider)
                    req.config db _ v
                    (profile_updated-Pinned version config db caller id req.name req.iso_id
                      req.config req.save_as_new_version now _ refl v)

    handle_delete_profile-Pinned :
        (db : Db) (caller : User) (raw : Option ℕ)
        → Pinned version config db
        → Pinned version config (handle_delete_profile db caller raw).1
    unfolding handle_delete_profile
    handle_delete_profile-Pinned db caller raw v =
        path_id-keeps (Pinned version config) db v raw _
          λ id. profile_deleted-Pinned version config db caller id (delete_profile db id) refl v

    handle_clone_profile-Pinned :
        (db : Db) (caller : User) (raw : Option ℕ) (body : Option String) (now : Time)
        → Pinned version config db
        → Pinned version config (handle_clone_profile db caller raw body now).1
    unfolding handle_clone_profile
    handle_clone_profile-Pinned db caller raw body now v =
        path_id-keeps (Pinned version config) db v raw _ λ id.
          on_ok-keeps (Pinned version config) db v (profile_by_id db id) _ _ λ source found.
            decode_json-keeps (Pinned version config) db v body _ λ name.
              on_ok-keeps (Pinned version config) db v
                (profile_version_number db source.id source.current_version) _ _
                λ current found'.
                  profile_created-Pinned version config db caller "profile.clone"
                    (failed 409 "profile.name_exists")
                    (if name == "" then source.name ++ " (copy)" else name) source.provider
                    current.config source.iso_id now _ refl v

    handle_import_profile-Pinned :
        (db : Db) (caller : User) (body : Option ProfileDocument) (now : Time)
        → Pinned version config db
        → Pinned version config (handle_import_profile json_valid db reg caller body now).1
    unfolding handle_import_profile
    handle_import_profile-Pinned db caller body now v =
        decode_json-keeps (Pinned version config) db v body _ λ doc.
          unless-keeps (Pinned version config) db v
            (not (doc.type == "helboot-profile") || not (doc.version == 1)) 400
            "profile.invalid_document" _
            λ _.
              unless-keeps (Pinned version config) db v (doc.name == "") 400 "profile.invalid_name"
                _
                λ _.
                  unless-keeps (Pinned version config) db v (is_absent (reg doc.provider)) 400
                    "profile.unknown_provider" _
                    λ _.
                      unless-keeps (Pinned version config) db v (invalid_json json_valid doc.config)
                        400 "profile.invalid_config" _
                        λ _.
                          profile_created-Pinned version config db caller "profile.import"
                            (failed 409 "profile.name_exists") doc.name doc.provider
                            (config_or_empty doc.config) none now _ refl v

    handle_set_answer_override-Pinned :
        (db : Db) (caller : User) (raw raw_version : Option ℕ) (body : Option String)
        → Pinned version config db
        → Pinned version config
            (handle_set_answer_override renders db caller raw raw_version body).1
    unfolding handle_set_answer_override
    handle_set_answer_override-Pinned db caller raw raw_version body v =
        path_id-keeps (Pinned version config) db v raw _ λ id.
          path_id-keeps (Pinned version config) db v raw_version _ λ n.
            on_ok-keeps (Pinned version config) db v (profile_by_id db id) _ _ λ profile found.
              on_ok-keeps (Pinned version config) db v (profile_version_number db profile.id n) _ _
                λ x found'. decode_json-keeps (Pinned version config) db v body _ λ content.
                  check_override-Pinned version config db (content == "") (renders content x.config)
                    _ v
                    (override_set-Pinned version config db caller profile.id x.version content _
                      refl v)

    step-Pinned :
        {db db' : Db} → ProfileStep db db' → Pinned version config db → Pinned version config db'
    step-Pinned (create caller body now) v = handle_create_profile-Pinned _ caller body now v
    step-Pinned (edit caller id body now) v = handle_update_profile-Pinned _ caller id body now v
    step-Pinned (remove caller id) v = handle_delete_profile-Pinned _ caller id v
    step-Pinned (clone caller id body now) v = handle_clone_profile-Pinned _ caller id body now v
    step-Pinned (import caller body now) v = handle_import_profile-Pinned _ caller body now v
    step-Pinned (override caller id n body) v =
        handle_set_answer_override-Pinned _ caller id n body v

    -- A version that an installation refers to stays in the table, with its configuration as it
    -- is, under any sequence of requests to create, edit, delete, clone and import profiles and to
    -- set answer overrides, served one after another.
    pub ProfileSteps-Pinned :
        {db db' : Db} → ProfileSteps db db' → Pinned version config db → Pinned version config db'
    ProfileSteps-Pinned none_yet v = v
    ProfileSteps-Pinned (next run s) v = step-Pinned s (ProfileSteps-Pinned run v)
