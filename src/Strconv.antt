-- ===== src/Strconv.antt =====
-- Itoa and Atoi of Go's strconv, as backend/internal/api/handlers_network.go and
-- backend/cmd/helboot/services.go call them. The limits of int are not modelled.
pub mod Laws
use Prim.Native.Char.{Char, code}
use Prim.Native.String.{◌++◌}
use helboot.Prelude.{
  ℕ, zero, suc, ◌+◌, ◌-◌, ◌*◌, String, ◌&&◌, Option, none, some, leb, nat_eq, if◌then◌else◌,
  decimal,
}
use helboot.Provider.Value.{ℤ, pos, negsuc}

unfoldable pub itoa : ℤ → String
itoa (pos n) = decimal n
itoa (negsuc n) = "-" ++ decimal (n + 1)

unfoldable pub read_digits : ℕ → String → Option ℕ
read_digits acc String.[] = some acc
read_digits acc (String.◌∷◌ c s) =
    let rest = read_digits (acc * 10 + (code c - b'0')) s in
    if leb b'0' (code c) && leb (code c) b'9' then rest else none

-- At least one digit.
unfoldable pub unsigned : String → Option ℕ
unfolding read_digits
unsigned String.[] = none
unsigned (String.◌∷◌ c s) = read_digits 0 (String.◌∷◌ c s)

unfoldable pub negative : Option ℕ → Option ℤ
negative none = none
negative (some zero) = some (pos 0)
negative (some (suc n)) = some (negsuc n)

unfoldable pub nonnegative : Option ℕ → Option ℤ
nonnegative none = none
nonnegative (some n) = some (pos n)

-- `none` is an error.
unfoldable pub atoi : String → Option ℤ
unfolding unsigned negative nonnegative
atoi String.[] = none
atoi (String.◌∷◌ c s) =
    if nat_eq (code c) b'-'
    then negative (unsigned s)
    else if nat_eq (code c) b'+'
    then nonnegative (unsigned s)
    else nonnegative (unsigned (String.◌∷◌ c s))

-- Beside an error of syntax Atoi returns 0. The texts read here are those that Itoa wrote of an int,
-- so its error of range is left.
unfoldable pub atoi_or_zero : String → ℤ
unfolding atoi
atoi_or_zero s = elim (atoi s) [ none ↦ pos 0 | some n ↦ n ]
