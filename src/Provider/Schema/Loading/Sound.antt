-- ===== src/Provider/Schema/Loading/Sound.antt =====
-- The schemas that validateSchema of backend/internal/provider/schema.go accepts.
use helboot.Prelude.{
  String, ◌≡◌, ◌≢◌, ◌↔◌, inl, inr, refl, Bool, true, false, not, List, [], ◌∷◌, Option, none, some,
  arith, eq_iff, All, Any, ◌==◌, String_eq, Bool-cases,
}
use helboot.Provider.Value.{ℤ, int_lt, Value}
use helboot.Provider.Schema.{
  FieldType, string_field, text_field, password_field, bool_field, int_field, select_field,
  list_field, unknown_field, FieldDependency, SettingsField, FieldError, is_option,
  check_field_value,
}
use helboot.Provider.Schema.Config.{
  FitsType, AtLeast, below_iff, is_option_iff, check_field_value_iff,
}
use helboot.Provider.Schema.Loading.{
  SchemaError, bad_key, duplicate_key, no_label, min_over_max, unknown_dependency, key_matches,
  or_else, fail_if, type_error, min_above_max, default_error, field_error, fields_error, keys_of,
  dependency_error, dependencies_error, validate_schema,
}

-- A select has options; other types are those that the form knows.
abbrev pub TypeKnown : FieldType → List String → Type 0
TypeKnown select_field options = options ≢ []
TypeKnown (unknown_field t) options = ⊥
TypeKnown _ options = Unit

abbrev pub RangeHolds : Option ℤ → Option ℤ → Type 0
RangeHolds low none = Unit
RangeHolds low (some high) = AtLeast low high

abbrev pub DefaultFits : SettingsField → Option Value → Type 0
DefaultFits f none = Unit
DefaultFits f (some v) = FitsType f.type f v

-- One field, among those before it.
pub record Sound (keys : List String) (f : SettingsField) : Type 0 where
  pub key : key_matches f.key ≡ true
  pub fresh : All (λ k. f.key ≢ k) keys
  pub type_known : TypeKnown f.type f.options
  pub labelled : f.label ≢ ""
  pub range : RangeHolds f.min f.max
  pub fits : DefaultFits f f.default

abbrev pub AllSound : List String → List SettingsField → Type 0
AllSound keys [] = Unit
AllSound keys (f ∷ fs) = Sound keys f × AllSound (f.key ∷ keys) fs

abbrev pub DependsKnown : List String → Option FieldDependency → Type 0
DependsKnown keys none = Unit
DependsKnown keys (some d) = Any (λ k. d.field ≡ k) keys

is_option_fresh :
    (k : String) (keys : List String) → (is_option k keys ≡ false) ↔ All (λ j. k ≢ j) keys
unfolding is_option
is_option_fresh k [] = (λ h. tt, λ h. refl)
is_option_fresh k (j ∷ keys) = (
  λ h. (λ e. ground (arith, eq_iff k j), (is_option_fresh k keys).0 (ground arith)),
  λ a. let rest = (is_option_fresh k keys).1 a.1 in ground (arith, eq_iff k j),
)

type_error_iff :
    (t : FieldType) (options : List String) → (type_error t options ≡ none) ↔ TypeKnown t options
unfolding type_error
type_error_iff string_field options = (λ h. tt, λ h. refl)
type_error_iff text_field options = (λ h. tt, λ h. refl)
type_error_iff password_field options = (λ h. tt, λ h. refl)
type_error_iff bool_field options = (λ h. tt, λ h. refl)
type_error_iff int_field options = (λ h. tt, λ h. refl)
type_error_iff list_field options = (λ h. tt, λ h. refl)
type_error_iff select_field [] = (λ h. absurd (ground arith), λ h. absurd (h refl))
type_error_iff select_field (o ∷ os) = (λ h e. absurd (ground arith), λ h. refl)
type_error_iff (unknown_field t) options = (λ h. absurd (ground arith), λ h. absurd h)

range_iff : (low high : Option ℤ) → (min_above_max low high ≡ false) ↔ RangeHolds low high
unfolding min_above_max int_lt helboot.Provider.Schema.below
range_iff none none = (λ h. tt, λ h. refl)
range_iff none (some high) = (λ h. tt, λ h. refl)
range_iff (some low) none = (λ h. tt, λ h. refl)
range_iff (some low) (some high) = below_iff high (some low)

default_error_iff :
    (f : SettingsField) (d : Option Value) → (default_error f d ≡ none) ↔ DefaultFits f d
unfolding default_error
default_error_iff f none = (λ h. tt, λ h. refl)
default_error_iff f (some v) = (
  λ h. (check_field_value_iff f v).0 (ground arith),
  λ a. let fits = (check_field_value_iff f v).1 a in ground arith,
)

or_else-none : (a b : Option SchemaError) → (or_else a b ≡ none) ↔ ((a ≡ none) × (b ≡ none))
or_else-none none b = (λ h. (refl, h), λ h. h.1)
or_else-none (some e) b = (λ h. absurd (ground arith), λ h. absurd (ground arith))

fail_if-none : (test : Bool) (e : SchemaError) → (fail_if test e ≡ none) ↔ (test ≡ false)
fail_if-none true e = (λ h. absurd (ground arith), λ h. absurd (ground arith))
fail_if-none false e = (λ h. refl, λ h. refl)

not-false : (b : Bool) → not b ≡ false → b ≡ true
not-false true h = refl
not-false false h = absurd (ground arith)

named : (label : String) → fail_if (label == "") no_label ≡ none → label ≢ ""
named label h q =
    let yes = (eq_iff label "").1 q in
    let no = (fail_if-none (label == "") no_label).0 h in ground arith

field_error_iff :
    (keys : List String) (f : SettingsField) → (field_error keys f ≡ none) ↔ Sound keys f
unfolding field_error
field_error_iff keys f = (
  λ h.
      let (a, h1) = (or_else-none _ _).0 h in
      let (b, h2) = (or_else-none _ _).0 h1 in
      let (c, h3) = (or_else-none _ _).0 h2 in
      let (d, h4) = (or_else-none _ _).0 h3 in
      let (e, g) = (or_else-none _ _).0 h4 in
      record {
        key = not-false (key_matches f.key) ((fail_if-none (not (key_matches f.key)) bad_key).0 a);
        fresh = (is_option_fresh f.key keys).0 ((fail_if-none _ duplicate_key).0 b);
        type_known = (type_error_iff f.type f.options).0 c;
        labelled = named f.label d;
        range = (range_iff f.min f.max).0 ((fail_if-none _ min_over_max).0 e);
        fits = (default_error_iff f f.default).0 g;
      },
  λ v.
      let key = v.key in
      let labelled : (f.label == "") ≡ false = elim (Bool-cases (f.label == "")) [
        | inl q ↦ absurd (v.labelled ((eq_iff f.label "").0 q))
        | inr q ↦ q
      ] in
      (or_else-none _ _).1 (
        (fail_if-none (not (key_matches f.key)) bad_key).1 (ground arith),
        (or_else-none _ _).1 (
          (fail_if-none (is_option f.key keys) duplicate_key).1
              ((is_option_fresh f.key keys).1 v.fresh),
          (or_else-none _ _).1 (
            (type_error_iff f.type f.options).1 v.type_known,
            (or_else-none _ _).1 (
              (fail_if-none (f.label == "") no_label).1 labelled,
              (or_else-none _ _).1 (
                (fail_if-none (min_above_max f.min f.max) min_over_max).1
                    ((range_iff f.min f.max).1 v.range),
                (default_error_iff f f.default).1 v.fits,
              ),
            ),
          ),
        ),
      ),
)

fields_error_iff :
    (keys : List String) (fs : List SettingsField)
    → (fields_error keys fs ≡ none) ↔ AllSound keys fs
unfolding fields_error
fields_error_iff keys [] = (λ h. tt, λ h. refl)
fields_error_iff keys (f ∷ fs) = (
  λ h.
      let (a, b) = (or_else-none (field_error keys f) (fields_error (f.key ∷ keys) fs)).0 h in
      ((field_error_iff keys f).0 a, (fields_error_iff (f.key ∷ keys) fs).0 b),
  λ v.
      (or_else-none (field_error keys f) (fields_error (f.key ∷ keys) fs)).1
        ((field_error_iff keys f).1 v.0, (fields_error_iff (f.key ∷ keys) fs).1 v.1),
)

dependency_error_iff :
    (keys : List String) (d : Option FieldDependency)
    → (dependency_error keys d ≡ none) ↔ DependsKnown keys d
unfolding dependency_error
dependency_error_iff keys none = (λ h. tt, λ h. refl)
dependency_error_iff keys (some d) = (
  λ h.
      (is_option_iff d.field keys).0
        (ground (arith, (fail_if-none (not (is_option d.field keys)) unknown_dependency).0 h)),
  λ a.
      let known = (is_option_iff d.field keys).1 a in
      (fail_if-none (not (is_option d.field keys)) unknown_dependency).1 (ground arith),
)

dependencies_error_iff :
    (keys : List String) (fs : List SettingsField)
    → (dependencies_error keys fs ≡ none) ↔ All (λ f. DependsKnown keys f.depends_on) fs
unfolding dependencies_error
dependencies_error_iff keys [] = (λ h. tt, λ h. refl)
dependencies_error_iff keys (f ∷ fs) = (
  λ h.
      let (a, b) =
        (or_else-none (dependency_error keys f.depends_on) (dependencies_error keys fs)).0 h in
      ((dependency_error_iff keys f.depends_on).0 a, (dependencies_error_iff keys fs).0 b),
  λ v.
      (or_else-none (dependency_error keys f.depends_on) (dependencies_error keys fs)).1
        ((dependency_error_iff keys f.depends_on).1 v.0, (dependencies_error_iff keys fs).1 v.1),
)

-- A settings schema is accepted exactly when each field has a key of a letter followed by letters
-- and digits that no field before it has, a known type, a label, options if it is a select, a
-- range that is not empty and a default that fits the type, and depends on no field but those of
-- the schema.
pub validate_schema_iff :
    (fields : List SettingsField)
    → (validate_schema fields ≡ none)
      ↔ (AllSound [] fields × All (λ f. DependsKnown (keys_of fields) f.depends_on) fields)
unfolding validate_schema
validate_schema_iff fields = (
  λ h.
      let (a, b) =
        (or_else-none (fields_error [] fields) (dependencies_error (keys_of fields) fields)).0 h in
      ((fields_error_iff [] fields).0 a, (dependencies_error_iff (keys_of fields) fields).0 b),
  λ v.
      (or_else-none (fields_error [] fields) (dependencies_error (keys_of fields) fields)).1 (
        (fields_error_iff [] fields).1 v.0,
        (dependencies_error_iff (keys_of fields) fields).1 v.1,
      ),
)
