-- ===== src/Api/Setup.antt =====
-- The first-run wizard: backend/internal/api/handlers_setup.go. `hash_password` is HashPassword of
-- backend/internal/auth. The settings are written in the order of a Go map, which is any order: they
-- have different keys, and a lookup does not tell the orders apart.
pub mod Once
use helboot.Prelude.{
  ℕ, String, Bool, true, false, not, ◌&&◌, ◌||◌, Option, none, some, ltb, ◌==◌, String_eq,
  if◌then◌else◌, byte_len,
}
use helboot.Time.{Time}
use helboot.Model.{admin, User}
use helboot.Store.Db.{Db, Result, ok, err}
use helboot.Store.Users.{create_user}
use helboot.Store.Settings.{
  set_setting, setup_completed, setting_ui_language, setting_network_mode, setting_setup_completed,
}
use helboot.Api.Respond.{Response, done, failed, Handled, internal_error, decode_json, unless}

pub record SetupRequest : Type 0 where
  pub language : String
  pub username : String
  pub password : String
  pub network_mode : String

unfoldable pub handle_setup_status : Db → Handled Bool
handle_setup_status db = (done 200 (setup_completed db), db)

unfoldable pub write_settings : Db → SetupRequest → Db
write_settings db req =
    set_setting
      (set_setting (set_setting db setting_ui_language req.language) setting_network_mode
        req.network_mode)
      setting_setup_completed "true"

unfoldable pub admin_created : Db → SetupRequest → Result (User × Db) → Handled Unit
unfolding write_settings
admin_created db req (err e) = (internal_error, db)
admin_created db req (ok (user, db')) = (done 201 tt, write_settings db' req)

unfoldable pub hashed : Db → SetupRequest → Time → Option String → Handled Unit
unfolding admin_created
hashed db req now none = (internal_error, db)
hashed db req now (some hash) =
    admin_created db req (create_user db req.username hash admin req.language now)

-- The completion is tested before the body is read.
unfoldable pub handle_setup_complete :
    (String → Option String) → Db → Option SetupRequest → Time → Handled Unit
unfolding hashed
handle_setup_complete hash_password db body now =
    unless (setup_completed db) 409 "setup.already_completed" db (
      decode_json body db λ req.
        unless (not (req.language == "en") && not (req.language == "de")) 400
          "setup.invalid_language" db
          (unless (ltb (byte_len req.username) 3) 400 "setup.invalid_username" db (
            unless (ltb (byte_len req.password) 10) 400 "setup.weak_password" db (
              unless (not (req.network_mode == "proxy_dhcp") && not (req.network_mode == "dhcp"))
                400 "setup.invalid_network_mode" db
                (hashed db req now (hash_password req.password))))))
