-- ===== src/Provider/Schema/Loading.antt =====
-- The settings schema when a provider is loaded: validateSchema of
-- backend/internal/provider/schema.go.
pub mod Sound
use Prim.Native.Char.{code}
use helboot.Prelude.{
  ℕ, String, Bool, true, false, not, ◌&&◌, ◌||◌, List, [], ◌∷◌, Option, none, some, leb, ◌==◌,
  String_eq, if◌then◌else◌,
}
use helboot.Provider.Value.{ℤ, int_lt, Value}
use helboot.Provider.Schema.{
  FieldType, select_field, unknown_field, FieldDependency, SettingsField, FieldError, is_option,
  check_field_value,
}

pub data SchemaError : Type 0 where
  bad_key duplicate_key no_options unknown_type no_label min_over_max bad_default
        unknown_dependency :
      SchemaError

is_letter : ℕ → Bool
is_letter c = (leb b'A' c && leb c b'Z') || (leb b'a' c && leb c b'z')

is_digit : ℕ → Bool
is_digit c = leb b'0' c && leb c b'9'

all_alphanumeric : String → Bool
unfolding is_letter is_digit
all_alphanumeric String.[] = true
all_alphanumeric (String.◌∷◌ c s) = (is_letter (code c) || is_digit (code c)) && all_alphanumeric s

-- ^[A-Za-z][A-Za-z0-9]*$
unfoldable pub key_matches : String → Bool
unfolding is_letter all_alphanumeric
key_matches String.[] = false
key_matches (String.◌∷◌ c s) = is_letter (code c) && all_alphanumeric s

-- The `return` of the first error.
abbrev pub or_else : Option SchemaError → Option SchemaError → Option SchemaError
or_else none later = later
or_else (some e) later = some e

abbrev pub fail_if : Bool → SchemaError → Option SchemaError
fail_if test e = if test then some e else none

-- The `switch` on the type.
unfoldable pub type_error : FieldType → List String → Option SchemaError
type_error select_field [] = some no_options
type_error (unknown_field t) options = some unknown_type
type_error _ options = none

unfoldable pub min_above_max : Option ℤ → Option ℤ → Bool
min_above_max (some low) (some high) = int_lt high low
min_above_max _ _ = false

unfoldable pub default_error : SettingsField → Option Value → Option SchemaError
default_error f none = none
default_error f (some v) = elim (check_field_value f v) [ none ↦ none | some e ↦ some bad_default ]

-- The body of the first loop; `keys` are those of the fields before.
unfoldable pub field_error : List String → SettingsField → Option SchemaError
field_error keys f = or_else (fail_if (not (key_matches f.key)) bad_key) (
    or_else (fail_if (is_option f.key keys) duplicate_key) (
      or_else (type_error f.type f.options) (
        or_else (fail_if (f.label == "") no_label) (
          or_else (fail_if (min_above_max f.min f.max) min_over_max) (default_error f f.default)))))

unfoldable pub fields_error : List String → List SettingsField → Option SchemaError
fields_error keys [] = none
fields_error keys (f ∷ fs) = or_else (field_error keys f) (fields_error (f.key ∷ keys) fs)

unfoldable pub keys_of : List SettingsField → List String
keys_of [] = []
keys_of (f ∷ fs) = f.key ∷ keys_of fs

unfoldable pub dependency_error : List String → Option FieldDependency → Option SchemaError
dependency_error keys none = none
dependency_error keys (some d) = fail_if (not (is_option d.field keys)) unknown_dependency

-- The second loop.
unfoldable pub dependencies_error : List String → List SettingsField → Option SchemaError
dependencies_error keys [] = none
dependencies_error keys (f ∷ fs) =
    or_else (dependency_error keys f.depends_on) (dependencies_error keys fs)

-- `none` is a nil error.
unfoldable pub validate_schema : List SettingsField → Option SchemaError
validate_schema fields =
    or_else (fields_error [] fields) (dependencies_error (keys_of fields) fields)
