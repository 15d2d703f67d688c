-- ===== src/Store/Settings.antt =====
-- The table settings: backend/internal/store/settings.go.
use helboot.Prelude.{
  String, Bool, false, List, [], ◌∷◌, Option, none, some, ◌==◌, String_eq, if◌then◌else◌,
}
use helboot.Store.Db.{Db, Result, ok, err, or_not_found}

abbrev pub setting_setup_completed : String
setting_setup_completed = "setup.completed"

abbrev pub setting_network_mode : String
setting_network_mode = "network.mode"

abbrev pub setting_ui_language : String
setting_ui_language = "ui.language"

unfoldable pub find_setting : String → List (String × String) → Option String
find_setting key [] = none
find_setting key ((k, v) ∷ rows) = if k == key then some v else find_setting key rows

unfoldable pub write_setting : String → String → List (String × String) → List (String × String)
write_setting key value [] = (key, value) ∷ []
write_setting key value ((k, v) ∷ rows) =
    if k == key then (key, value) ∷ rows else (k, v) ∷ write_setting key value rows

unfoldable pub get_setting : Db → String → Result String
unfolding find_setting
get_setting db key = or_not_found (find_setting key db.settings)

-- INSERT … ON CONFLICT (key) DO UPDATE
unfoldable pub set_setting : Db → String → String → Db
unfolding write_setting
set_setting db key value = record db { settings = write_setting key value db.settings }

unfoldable pub setup_completed : Db → Bool
setup_completed db = elim (get_setting db setting_setup_completed) [
  | ok v ↦ v == "true"
  | err e ↦ false
]
