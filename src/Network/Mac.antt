-- ===== src/Network/Mac.antt =====
-- Hardware addresses: NormalizeMAC of backend/internal/netutil/mac.go, with the part of Go's
-- net.ParseMAC that yields addresses of 48 bits.
use Prim.Native.Char.{Char, code}
use Prim.Native.String.{◌++◌}
use helboot.Prelude.{
  ℕ, zero, suc, String, ◌&&◌, Option, none, some, leb, ◌==◌, ℕ_eq, String_eq, if◌then◌else◌,
  trim_space,
}

-- A hexadecimal digit in lower case.
hex_digit : Char → Option String
hex_digit c =
    if leb b'0' (code c) && leb (code c) b'9'
    then some (String.◌∷◌ c "")
    else if leb b'a' (code c) && leb (code c) b'f'
    then some (String.◌∷◌ c "")
    else if code c == b'A'
    then some "a"
    else if code c == b'B'
    then some "b"
    else if code c == b'C'
    then some "c"
    else if code c == b'D'
    then some "d"
    else if code c == b'E'
    then some "e"
    else if code c == b'F'
    then some "f"
    else none

join : Option String → Option String → Option String
join (some a) (some b) = some (a ++ b)
join _ _ = none

octet : Char → Char → Option String
unfolding hex_digit join
octet c d = join (hex_digit c) (hex_digit d)

-- `n` more octets, each after the separator.
octets : ℕ → ℕ → String → Option String
unfolding octet join
octets sep zero s = if s == "" then some "" else none
octets sep (suc n) (String.◌∷◌ x (String.◌∷◌ c (String.◌∷◌ d s))) =
    let rest = octets sep n s in
    if code x == sep then join (some ":") (join (octet c d) rest) else none
octets sep (suc n) _ = none

-- An octet, and `n` more, each after the separator.
separated : ℕ → ℕ → String → Option String
unfolding octets
separated sep n (String.◌∷◌ c (String.◌∷◌ d s)) = join (octet c d) (octets sep n s)
separated sep n _ = none

-- Four digits, and the rest.
quad : Char → Char → Char → Char → Option String → Option String
quad a b c d rest = join (octet a b) (join (some ":") (join (octet c d) rest))

-- `n` more groups of four digits, each after a dot.
quads : ℕ → String → Option String
unfolding quad
quads zero s = if s == "" then some "" else none
quads (suc n) (String.◌∷◌ x (String.◌∷◌ a (String.◌∷◌ b (String.◌∷◌ c (String.◌∷◌ d s))))) =
    let rest = quads n s in if code x == b'.' then join (some ":") (quad a b c d rest) else none
quads (suc n) _ = none

dotted : String → Option String
unfolding quads
dotted (String.◌∷◌ a (String.◌∷◌ b (String.◌∷◌ c (String.◌∷◌ d s)))) = quad a b c d (quads 2 s)
dotted _ = none

or_else : Option String → Option String → Option String
or_else none b = b
or_else (some a) b = some a

unfoldable pub normalize_mac : String → Option String
unfolding separated dotted or_else hex_digit octet join octets quad quads
normalize_mac s =
    let t = trim_space s in or_else (separated b':' 5 t) (or_else (separated b'-' 5 t) (dotted t))
