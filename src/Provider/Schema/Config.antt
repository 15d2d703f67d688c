-- ===== src/Provider/Schema/Config.antt =====
-- ValidateConfig of backend/internal/provider/schema.go against a description of the documents that
-- it accepts.
use helboot.Prelude.{
  ap, if◌then◌else◌, ◌≤◌, String, ◌≡◌, refl, ◌⊎◌, inl, inr, ◌↔◌, Bool, true, false, List, [], ◌∷◌,
  Option, none, some, arith, eq_iff, Any, All, Bool-cases, subst,
}
use helboot.Provider.Value.{
  ℤ, pos, negsuc, Value, str, bool, list, strings, Items, as_int, is_empty_value, is_string,
  all_strings, Doc, value_at, loose_equal,
}
use helboot.Provider.Schema.{
  FieldType, string_field, text_field, password_field, bool_field, int_field, select_field,
  list_field, unknown_field, SettingsField, check_field_value, check_string, check_bool, check_int,
  check_select, check_list, check_by_type, is_option, below, above, dependency_satisfied,
  field_problem, validate_config, Verdict, fine, panics, problem, Problem, require_active,
  type_verdict, add_problem, FieldDependency, depends,
}

-- The order of the integers.
abbrev pub IntLe : ℤ → ℤ → Type 0
IntLe (pos a) (pos b) = a ≤ b
IntLe (negsuc a) (negsuc b) = b ≤ a
IntLe (negsuc a) (pos b) = Unit
IntLe (pos a) (negsuc b) = ⊥

abbrev pub AtLeast : Option ℤ → ℤ → Type 0
AtLeast none n = Unit
AtLeast (some m) n = IntLe m n

abbrev pub AtMost : Option ℤ → ℤ → Type 0
AtMost none n = Unit
AtMost (some m) n = IntLe n m

-- The values that a field of a type may hold.
abbrev pub FitsType : FieldType → SettingsField → Value → Type 0
FitsType string_field f v = (s : String) × (v ≡ str s)
FitsType text_field f v = (s : String) × (v ≡ str s)
FitsType password_field f v = (s : String) × (v ≡ str s)
FitsType bool_field f v = (b : Bool) × (v ≡ bool b)
FitsType int_field f v = (n : ℤ) × (as_int v ≡ some n) × AtLeast f.min n × AtMost f.max n
FitsType select_field f v = (s : String) × (v ≡ str s) × Any (λ o. s ≡ o) f.options
FitsType list_field f v =
    ((items : Items) × (v ≡ list items) × (all_strings items ≡ true))
    ⊎ ((ss : List String) × (v ≡ strings ss))
FitsType (unknown_field t) f v = Unit

-- The document holds another value than the one that the field depends on.
abbrev pub Hidden : Option FieldDependency → Doc → Type 0
Hidden none doc = ⊥
Hidden (some d) doc = loose_equal (value_at doc d.field) d.value ≡ some false

-- A field of the document: left empty, which a required field may be only while its dependency
-- hides it, or holding a value of its type.
abbrev pub Accepts : Doc → SettingsField → Type 0
Accepts doc f =
    ((is_empty_value (value_at doc f.key) ≡ true)
      × ((f.required ≡ false) ⊎ Hidden f.depends_on doc))
    ⊎ ((is_empty_value (value_at doc f.key) ≡ false) × FitsType f.type f (value_at doc f.key))

pub below_iff : (n : ℤ) (m : Option ℤ) → (below n m ≡ false) ↔ AtLeast m n
unfolding below
below_iff n none = (λ h. tt, λ h. refl)
below_iff (pos n) (some (pos m)) = (λ h. ground arith, λ h. ground arith)
below_iff (negsuc n) (some (negsuc m)) = (λ h. ground arith, λ h. ground arith)
below_iff (pos n) (some (negsuc m)) = (λ h. tt, λ h. refl)
below_iff (negsuc n) (some (pos m)) = (λ h. absurd (ground arith), λ h. absurd h)

above_iff : (n : ℤ) (m : Option ℤ) → (above n m ≡ false) ↔ AtMost m n
unfolding above
above_iff n none = (λ h. tt, λ h. refl)
above_iff (pos n) (some (pos m)) = (λ h. ground arith, λ h. ground arith)
above_iff (negsuc n) (some (negsuc m)) = (λ h. ground arith, λ h. ground arith)
above_iff (pos n) (some (negsuc m)) = (λ h. absurd (ground arith), λ h. absurd h)
above_iff (negsuc n) (some (pos m)) = (λ h. tt, λ h. refl)

pub is_option_iff : (s : String) (os : List String) → (is_option s os ≡ true) ↔ Any (λ o. s ≡ o) os
unfolding is_option
is_option_iff s [] = (λ h. cc, λ h. absurd h)
is_option_iff s (o ∷ os) = (
  λ h. elim (Bool-cases (is_option s os)) [
    | inl t ↦ inr ((is_option_iff s os).0 t)
    | inr t ↦ inl (ground (arith, eq_iff s o))
  ],
  elim [
    | inl e ↦ ground (arith, eq_iff s o)
    | inr a ↦ let t = (is_option_iff s os).1 a in ground arith
  ],
)

string_iff : (v : Value) → (check_string v ≡ none) ↔ ((s : String) × (v ≡ str s))
unfolding check_string is_string
string_iff (str s) = (λ h. (s, refl), λ h. refl)
string_iff v = (λ h. absurd (ground arith), λ (s, e). absurd (cc))

bool_iff : (v : Value) → (check_bool v ≡ none) ↔ ((b : Bool) × (v ≡ bool b))
unfolding check_bool
bool_iff (bool b) = (λ h. (b, refl), λ h. refl)
bool_iff v = (λ h. absurd (ground arith), λ (b, e). absurd (cc))

int_iff :
    (f : SettingsField) (o : Option ℤ)
    → (check_int f o ≡ none) ↔ ((n : ℤ) × (o ≡ some n) × AtLeast f.min n × AtMost f.max n)
unfolding check_int
int_iff f none = (λ h. absurd (ground arith), λ (n, e, _, _). absurd (cc))
int_iff f (some n) = (
  λ h. (n, refl, (below_iff n f.min).0 (ground arith), (above_iff n f.max).0 (ground arith)),
  λ (m, e, lo, hi).
      let lo' : AtLeast f.min n = subst (AtLeast f.min) (ground arith) lo in
      let hi' : AtMost f.max n = subst (AtMost f.max) (ground arith) hi in
      ground (arith, (below_iff n f.min).1 lo', (above_iff n f.max).1 hi'),
)

select_iff :
    (f : SettingsField) (v : Value)
    → (check_select f v ≡ none) ↔ ((s : String) × (v ≡ str s) × Any (λ o. s ≡ o) f.options)
unfolding check_select
select_iff f (str s) = (
  λ h. (s, refl, (is_option_iff s f.options).0 (ground arith)),
  λ (t, e, a).
      let a' : Any (λ o. s ≡ o) f.options =
        subst (λ x. Any (λ o. x ≡ o) f.options) (ground arith) a in
      ground (arith, (is_option_iff s f.options).1 a'),
)
select_iff f v = (λ h. absurd (ground arith), λ (s, e, _). absurd (cc))

list_iff : (f : SettingsField) (v : Value) → (check_list v ≡ none) ↔ FitsType list_field f v
unfolding check_list
list_iff f (list items) = (
  λ h. inl (items, refl, ground arith),
  elim [ inl (is, e, t) ↦ ground arith | inr (ss, e) ↦ absurd (cc) ],
)
list_iff f (strings ss) = (λ h. inr (ss, refl), λ h. refl)
list_iff f v =
    (λ h. absurd (ground arith), elim [ inl (is, e, t) ↦ absurd (cc) | inr (ss, e) ↦ absurd (cc) ])

type_iff :
    (t : FieldType) (f : SettingsField) (v : Value) → (check_by_type t f v ≡ none) ↔ FitsType t f v
unfolding check_by_type
type_iff string_field f v = string_iff v
type_iff text_field f v = string_iff v
type_iff password_field f v = string_iff v
type_iff bool_field f v = bool_iff v
type_iff int_field f v = int_iff f (as_int v)
type_iff select_field f v = select_iff f v
type_iff list_field f v = list_iff f v
type_iff (unknown_field t) f v = (λ h. tt, λ h. refl)

-- checkFieldValue raises no error exactly on the values of the field's type.
pub check_field_value_iff :
    (f : SettingsField) (v : Value) → (check_field_value f v ≡ none) ↔ FitsType f.type f v
unfolding check_field_value
check_field_value_iff f v = type_iff f.type f v

Hidden-iff : (d : Option FieldDependency) (doc : Doc) → (depends d doc ≡ some false) ↔ Hidden d doc
unfolding depends
Hidden-iff none doc = (λ h. absurd (ground arith), λ h. absurd h)
Hidden-iff (some d) doc = (λ h. h, λ h. h)

empty_iff :
    (key : String) (required : Bool) (d : Option FieldDependency) (doc : Doc)
    → ((if required then require_active key (depends d doc) else fine) ≡ fine)
      ↔ ((required ≡ false) ⊎ Hidden d doc)
unfolding require_active
empty_iff key false d doc = (λ h. inl refl, λ h. refl)
empty_iff key true d doc = (
  λ h. inr ((Hidden-iff d doc).0 (not_required (depends d doc) h)),
  elim [ inl e ↦ absurd (ground arith) | inr k ↦ ap (require_active key) ((Hidden-iff d doc).1 k) ],
)
  where
    not_required : (o : Option Bool) → require_active key o ≡ fine → o ≡ some false
    not_required none h = absurd (ground arith)
    not_required (some true) h = absurd (ground arith)
    not_required (some false) h = refl

field_problem_iff : (f : SettingsField) (doc : Doc) → (field_problem f doc ≡ fine) ↔ Accepts doc f
unfolding field_problem require_active type_verdict dependency_satisfied
field_problem_iff f doc = elim (Bool-cases (is_empty_value (value_at doc f.key))) [
  | inl e ↦ (
    λ h. inl (e, (empty_iff f.key f.required f.depends_on doc).0 (ground arith)),
    elim [
      | inl (_, why) ↦
          let fine_here = (empty_iff f.key f.required f.depends_on doc).1 why in ground arith
      | inr (full, _) ↦ absurd (cc)
    ],
  )
  | inr e ↦ (
    λ h. inr (e, (check_field_value_iff f (value_at doc f.key)).0 (ground arith)),
    elim [
      | inl (empty, _) ↦ absurd (cc)
      | inr (_, fits) ↦ ground (arith, (check_field_value_iff f (value_at doc f.key)).1 fits)
    ],
  )
]

-- Validating a document finds no problem, and does not panic, exactly when each field of the
-- schema accepts it: left empty, and then not required or hidden by its dependency, or filled with
-- a value of its type, in its range or among its options.
pub validate_config_iff :
    (fields : List SettingsField) (doc : Doc)
    → (validate_config fields doc ≡ some []) ↔ All (Accepts doc) fields
unfolding validate_config add_problem
validate_config_iff [] doc = (λ h. tt, λ h. refl)
validate_config_iff (f ∷ fs) doc = (
  λ h.
      let (a, b) = fine_first (field_problem f doc) (validate_config fs doc) h in
      ((field_problem_iff f doc).0 a, (validate_config_iff fs doc).0 b),
  λ a.
      let here = (field_problem_iff f doc).1 a.0 in
      let rest = (validate_config_iff fs doc).1 a.1 in rw (validate_config, here) rest,
)
  where
    fine_first :
        (v : Verdict) (r : Option (List Problem))
        → add_problem v r ≡ some []
        → (v ≡ fine) × (r ≡ some [])
    fine_first fine r h = (refl, h)
    fine_first panics r h = absurd (ground arith)
    fine_first (problem p) none h = absurd (ground arith)
    fine_first (problem p) (some ps) h = absurd (ground arith)
