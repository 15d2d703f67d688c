-- ===== src/Provider/Schema.antt =====
-- The settings schema: backend/internal/provider/schema.go. Of an error the model keeps the rule
-- that is broken and the field, not the text.
pub mod Config
pub mod Loading
use helboot.Prelude.{
  ℕ, String, Bool, true, false, not, ◌&&◌, ◌||◌, List, [], ◌∷◌, Option, none, some, ◌==◌, String_eq,
  leb, if◌then◌else◌,
}
use helboot.Provider.Value.{
  ℤ, int_lt, Value, str, bool, list, strings, as_int, is_empty_value, is_string, all_strings, Doc,
  value_at, loose_equal,
}

pub data FieldType : Type 0 where
  string_field text_field password_field bool_field int_field select_field list_field : FieldType
  unknown_field : String → FieldType

pub record FieldDependency : Type 0 where
  pub field : String
  pub value : Value

-- The descriptors that only the form reads (group, help, placeholder) are left out.
pub record SettingsField : Type 0 where
  pub key : String
  pub type : FieldType
  pub label : String
  -- A nil default, also one that is written as null, is `none`.
  pub default : Option Value
  pub required : Bool
  pub options : List String
  pub min : Option ℤ
  pub max : Option ℤ
  pub depends_on : Option FieldDependency

pub data FieldError : Type 0 where
  not_string not_boolean not_integer too_small too_large not_option not_string_list : FieldError

unfoldable pub below : ℤ → Option ℤ → Bool
unfolding int_lt
below n none = false
below n (some m) = int_lt n m

above : ℤ → Option ℤ → Bool
unfolding int_lt
above n none = false
above n (some m) = int_lt m n

unfoldable pub is_option : String → List String → Bool
is_option s [] = false
is_option s (o ∷ os) = s == o || is_option s os

check_int : SettingsField → Option ℤ → Option FieldError
unfolding below above
check_int f none = some not_integer
check_int f (some n) =
    if below n f.min then some too_small else if above n f.max then some too_large else none

check_select : SettingsField → Value → Option FieldError
check_select f (str s) = if is_option s f.options then none else some not_option
check_select f _ = some not_string

check_bool : Value → Option FieldError
check_bool (bool b) = none
check_bool _ = some not_boolean

check_list : Value → Option FieldError
unfolding all_strings
check_list (list items) = if all_strings items then none else some not_string_list
check_list (strings ss) = none
check_list _ = some not_string_list

check_string : Value → Option FieldError
check_string v = if is_string v then none else some not_string

check_by_type : FieldType → SettingsField → Value → Option FieldError
unfolding check_string check_bool check_int check_select check_list
check_by_type string_field f v = check_string v
check_by_type text_field f v = check_string v
check_by_type password_field f v = check_string v
check_by_type bool_field f v = check_bool v
check_by_type int_field f v = check_int f (as_int v)
check_by_type select_field f v = check_select f v
check_by_type list_field f v = check_list v
check_by_type (unknown_field t) f v = none

unfoldable pub check_field_value : SettingsField → Value → Option FieldError
unfolding check_by_type
check_field_value f v = check_by_type f.type f v

depends : Option FieldDependency → Doc → Option Bool
depends none doc = some true
depends (some d) doc = loose_equal (value_at doc d.field) d.value

-- `none` is a panic.
unfoldable pub dependency_satisfied : SettingsField → Doc → Option Bool
unfolding depends
dependency_satisfied f doc = depends f.depends_on doc

pub data Problem : Type 0 where
  is_required : String → Problem
  bad_value : String → FieldError → Problem

pub data Verdict : Type 0 where
  fine panics : Verdict
  problem : Problem → Verdict

require_active : String → Option Bool → Verdict
require_active key none = panics
require_active key (some true) = problem (is_required key)
require_active key (some false) = fine

type_verdict : String → Option FieldError → Verdict
type_verdict key none = fine
type_verdict key (some e) = problem (bad_value key e)

-- The body of the loop of ValidateConfig.
unfoldable pub field_problem : SettingsField → Doc → Verdict
unfolding require_active type_verdict
field_problem f doc =
    let v = value_at doc f.key in
    if is_empty_value v
    then (if f.required then require_active f.key (dependency_satisfied f doc) else fine)
    else type_verdict f.key (check_field_value f v)

add_problem : Verdict → Option (List Problem) → Option (List Problem)
add_problem fine rest = rest
add_problem panics rest = none
add_problem (problem p) none = none
add_problem (problem p) (some ps) = some (p ∷ ps)

-- An empty list is a nil error, and `none` a panic.
unfoldable pub validate_config : List SettingsField → Doc → Option (List Problem)
unfolding add_problem
validate_config [] doc = some []
validate_config (f ∷ fs) doc = add_problem (field_problem f doc) (validate_config fs doc)
