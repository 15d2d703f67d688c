-- ===== src/Prelude/Text.antt =====
-- The functions of Go's `strings` and `fmt` that the program uses, on native texts.
use Prim.Native.Nat.{ℕ, zero, suc, ◌+◌, ◌/◌, ◌%◌}
use Prim.Native.Char.{code}
use Prim.Native.String.{String, ◌++◌}
use mathlib.Core.Bool.{Bool, true, false, ◌&&◌, ◌||◌}
use mathlib.Core.List.{List, [], ◌∷◌}
use mathlib.Core.Option.{Option, none, some}
use text.Mathlib.Text.{starts_with, ◌==◌ as str_eq}
use helboot.Prelude.Tests.{ltb, leb, nat_eq, if◌then◌else◌}

-- The code points of a text.
unfoldable pub codes : String → List ℕ
codes String.[] = []
codes (String.◌∷◌ c s) = code c ∷ codes s

-- strings.Contains(s, t) for a text of one character.
unfoldable pub contains_char : ℕ → String → Bool
contains_char x String.[] = false
contains_char x (String.◌∷◌ c s) = nat_eq (code c) x || contains_char x s

-- strings.Contains
unfoldable pub contains : String → String → Bool
contains String.[] t = str_eq t ""
contains (String.◌∷◌ c s) t = starts_with (String.◌∷◌ c s) t || contains s t

-- strings.TrimPrefix(s, x) for one character.
unfoldable pub trim_prefix_char : ℕ → String → String
trim_prefix_char x String.[] = ""
trim_prefix_char x (String.◌∷◌ c s) = if nat_eq (code c) x then s else String.◌∷◌ c s

-- The parts before and after the last `x`, by strings.LastIndex.
unfoldable pub split_last : ℕ → String → Option (String × String)
split_last x String.[] = none
split_last x (String.◌∷◌ c s) = elim (split_last x s) [
  | some (a, b) ↦ some (String.◌∷◌ c a, b)
  | none ↦ if nat_eq (code c) x then some ("", s) else none
]

-- unicode.IsSpace
is_space : ℕ → Bool
is_space c =
    nat_eq c 32
    || (leb 9 c && leb c 13)
    || nat_eq c 0x85
    || nat_eq c 0xa0
    || nat_eq c 0x1680
    || (leb 0x2000 c && leb c 0x200a)
    || nat_eq c 0x2028
    || nat_eq c 0x2029
    || nat_eq c 0x202f
    || nat_eq c 0x205f
    || nat_eq c 0x3000

trim_left : String → String
unfolding is_space
trim_left String.[] = ""
trim_left (String.◌∷◌ c s) =
    let rest = trim_left s in if is_space (code c) then rest else String.◌∷◌ c s

trim_right : String → String
unfolding is_space
trim_right String.[] = ""
trim_right (String.◌∷◌ c s) =
    let rest = trim_right s in if is_space (code c) && str_eq rest "" then "" else String.◌∷◌ c rest

-- strings.TrimSpace
unfoldable pub trim_space : String → String
unfolding trim_left trim_right
trim_space s = trim_right (trim_left s)

unfoldable pub digit : ℕ → String
digit zero = "0"
digit (suc zero) = "1"
digit (suc (suc zero)) = "2"
digit (suc (suc (suc zero))) = "3"
digit (suc (suc (suc (suc zero)))) = "4"
digit (suc (suc (suc (suc (suc zero))))) = "5"
digit (suc (suc (suc (suc (suc (suc zero)))))) = "6"
digit (suc (suc (suc (suc (suc (suc (suc zero))))))) = "7"
digit (suc (suc (suc (suc (suc (suc (suc (suc zero)))))))) = "8"
digit _ = "9"

unfoldable pub digits : ℕ → ℕ → String
unfolding digit
digits zero n = ""
digits (suc fuel) n =
    let rest = digits fuel (n / 10) in if ltb n 10 then digit n else rest ++ digit (n % 10)

-- %d of a number: a round for each digit, of which there are at most as many as the number and one.
unfoldable pub decimal : ℕ → String
unfolding digits
decimal n = digits (n + 1) n

fold : ℕ → ℕ
fold c = if leb b'A' c && leb c b'Z' then c + 32 else c

same_folded : List ℕ → List ℕ → Bool
unfolding fold
same_folded [] [] = true
same_folded (a ∷ s) (b ∷ t) = nat_eq (fold a) (fold b) && same_folded s t
same_folded _ _ = false

-- Equal up to the case of the letters of ASCII: COLLATE NOCASE.
unfoldable pub nocase_eq : String → String → Bool
unfolding codes same_folded
nocase_eq s t = same_folded (codes s) (codes t)

-- unicode.ToLower, where the result is in ASCII: the dotted capital i and the Kelvin sign too.
lower : ℕ → ℕ
unfolding fold
lower c = if nat_eq c 0x130 then b'i' else if nat_eq c 0x212a then b'k' else fold c

lowers_to : List ℕ → List ℕ → Bool
unfolding lower
lowers_to [] [] = true
lowers_to (a ∷ s) (b ∷ t) = nat_eq (lower a) b && lowers_to s t
lowers_to _ _ = false

-- strings.ToLower(s) == t, for a text t of ASCII.
unfoldable pub lower_is : String → String → Bool
unfolding codes lowers_to
lower_is s t = lowers_to (codes s) (codes t)

-- strings.Map of boot.go's sanitizeParam: what is not printable ASCII is dropped.
unfoldable pub drop_unprintable : String → String
drop_unprintable String.[] = ""
drop_unprintable (String.◌∷◌ c s) =
    let rest = drop_unprintable s in
    if ltb (code c) 0x20 || ltb 0x7e (code c) then rest else String.◌∷◌ c rest

-- s[:n] of a text of ASCII.
unfoldable pub take_chars : ℕ → String → String
take_chars zero s = ""
take_chars (suc n) String.[] = ""
take_chars (suc n) (String.◌∷◌ c s) = String.◌∷◌ c (take_chars n s)

-- len(s): the bytes of a text in UTF-8.
unfoldable pub byte_len : String → ℕ
byte_len String.[] = 0
byte_len (String.◌∷◌ c s) =
    (if ltb (code c) 0x80
      then 1
      else if ltb (code c) 0x800
      then 2
      else if ltb (code c) 0x10000
      then 3
      else 4)
    + byte_len s
