-- ===== src/Provider/Examples.antt =====
-- The theorems on the settings schema at a concrete schema, and tests.
use helboot.Prelude.{◌≡◌, ◌↔◌, refl, true, [], ◌∷◌, none, some, All, ◌==◌, String_eq, if◌then◌else◌}
use helboot.Provider.Value.{pos, Value, str, int, Doc}
use helboot.Provider.Schema.{
  FieldType, int_field, string_field, SettingsField, Problem, is_required, bad_value, too_small,
  check_field_value, validate_config,
}
use helboot.Provider.Schema.Loading.{validate_schema, keys_of, duplicate_key}
use helboot.Provider.Schema.Loading.Sound.{AllSound, DependsKnown, validate_schema_iff}
use helboot.Provider.Schema.Config.{Accepts, validate_config_iff}

abbrev disk_size : SettingsField
disk_size = record {
  key = "disk";
  type = int_field;
  label = "Disk";
  default = none;
  required = true;
  options = [];
  min = some (pos 8);
  max = none;
  depends_on = none;
}

abbrev user_name : SettingsField
user_name = record {
  key = "user";
  type = string_field;
  label = "User";
  default = none;
  required = true;
  options = [];
  min = none;
  max = none;
  depends_on = none;
}

abbrev doc : Doc
doc k = if k == "disk" then some (int (pos 4)) else none

problems :
    validate_config (disk_size ∷ user_name ∷ []) doc
    ≡ some (bad_value "disk" too_small ∷ is_required "user" ∷ [])
unfolding validate_config helboot.Provider.Schema.field_problem
    helboot.Provider.Value.is_empty_value check_field_value helboot.Provider.Value.as_int
    helboot.Provider.Schema.dependency_satisfied
problems = refl

validate_config_iff_example :
    (validate_config (disk_size ∷ user_name ∷ []) doc ≡ some [])
    ↔ All (Accepts doc) (disk_size ∷ user_name ∷ [])
validate_config_iff_example = validate_config_iff (disk_size ∷ user_name ∷ []) doc

validate_schema_iff_example : (validate_schema (disk_size ∷ user_name ∷ []) ≡ none) ↔ (
    AllSound [] (disk_size ∷ user_name ∷ [])
    × All
        (λ f. DependsKnown (keys_of (disk_size ∷ user_name ∷ [])) f.depends_on)
        (disk_size ∷ user_name ∷ []))
validate_schema_iff_example = validate_schema_iff (disk_size ∷ user_name ∷ [])

schema_accepted : validate_schema (disk_size ∷ user_name ∷ []) ≡ none
unfolding validate_schema helboot.Provider.Schema.Loading.fields_error
    helboot.Provider.Schema.Loading.field_error helboot.Provider.Schema.Loading.key_matches
    helboot.Provider.Schema.is_option helboot.Provider.Schema.Loading.type_error
    helboot.Provider.Schema.Loading.min_above_max helboot.Provider.Schema.Loading.default_error
    helboot.Provider.Schema.Loading.dependencies_error
    helboot.Provider.Schema.Loading.dependency_error
schema_accepted = refl

key_twice : validate_schema (disk_size ∷ disk_size ∷ []) ≡ some duplicate_key
unfolding validate_schema helboot.Provider.Schema.Loading.fields_error
    helboot.Provider.Schema.Loading.field_error helboot.Provider.Schema.Loading.key_matches
    helboot.Provider.Schema.is_option helboot.Provider.Schema.Loading.type_error
    helboot.Provider.Schema.Loading.min_above_max helboot.Provider.Schema.Loading.default_error
key_twice = refl
