-- ===== src/Provider/Value.antt =====
-- The values of a configuration document or of a YAML default (Go's `any`), with asInt, looseEqual
-- and isEmptyValue of backend/internal/provider/schema.go.
use helboot.Prelude.{
  ℕ, ◌^◌, if◌then◌else◌, String, Bool, true, false, ◌&&◌, Option, none, some, List, ◌==◌, ℕ_eq,
  String_eq, ltb,
}

-- `negsuc n` is -(n + 1).
pub data ℤ : Type 0 where
  pos : ℕ → ℤ
  negsuc : ℕ → ℤ

unfoldable pub int_eq : ℤ → ℤ → Bool
int_eq (pos a) (pos b) = a == b
int_eq (negsuc a) (negsuc b) = a == b
int_eq _ _ = false

unfoldable pub int_lt : ℤ → ℤ → Bool
int_lt (pos a) (pos b) = ltb a b
int_lt (negsuc a) (negsuc b) = ltb b a
int_lt (negsuc a) (pos b) = true
int_lt (pos a) (negsuc b) = false

-- A float64 is an integer or has a fraction, whose bits are then kept.
mutual
  pub data Value : Type 0 where
    null : Value
    bool : Bool → Value
    str : String → Value
    int : ℤ → Value
    float_whole : ℤ → Value
    float_fraction : ℕ → Value
    list : Items → Value
    strings : List String → Value
    object : Fields → Value

  pub data Items : Type 0 where
    nil : Items
    cons : Value → Items → Items

  pub data Fields : Type 0 where
    end : Fields
    field : String → Value → Fields → Fields

unfoldable pub in_int64 : ℤ → Bool
in_int64 (pos n) = ltb n (2 ^ 63)
in_int64 (negsuc n) = ltb n (2 ^ 63)

-- Beyond int64 an integer of YAML is a uint64, and a float64 does not equal what `int` makes of it
-- (on amd64).
unfoldable pub as_int : Value → Option ℤ
unfolding in_int64
as_int (int n) = if in_int64 n then some n else none
as_int (float_whole n) = if in_int64 n then some n else none
as_int _ = none

unfoldable pub is_empty_value : Value → Bool
is_empty_value null = true
is_empty_value (str s) = s == ""
is_empty_value _ = false

unfoldable pub is_string : Value → Bool
is_string (str s) = true
is_string _ = false

unfoldable pub all_strings : Items → Bool
unfolding is_string
all_strings nil = true
all_strings (cons v rest) = is_string v && all_strings rest

-- A document: the map of a JSON object. A missing key reads as nil.
abbrev pub Doc : Type 0
Doc = String → Option Value

abbrev pub value_at : Doc → String → Value
value_at doc key = elim (doc key) [ none ↦ null | some v ↦ v ]

-- `a == b` on two interface values: the dynamic types must agree; `none` is the panic of Go on two
-- slices or two maps.
same_value : Value → Value → Option Bool
unfolding int_eq
same_value (bool a) (bool b) = some (bool_eq a b)
  where
    bool_eq : Bool → Bool → Bool
    bool_eq true c = c
    bool_eq false true = false
    bool_eq false false = true
same_value (str a) (str b) = some (a == b)
same_value (int a) (int b) = some (int_eq a b)
same_value (float_whole a) (float_whole b) = some (int_eq a b)
same_value (float_fraction a) (float_fraction b) = some (a == b)
same_value null null = some true
same_value (list a) (list b) = none
same_value (strings a) (strings b) = none
same_value (object a) (object b) = none
same_value _ _ = some false

by_ints : Option ℤ → Option ℤ → Option Bool → Option Bool
unfolding int_eq
by_ints (some a) (some b) same = some (int_eq a b)
by_ints _ _ same = same

unfoldable pub loose_equal : Value → Value → Option Bool
unfolding as_int by_ints same_value
loose_equal a b = by_ints (as_int a) (as_int b) (same_value a b)
