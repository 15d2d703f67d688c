-- ===== src/Filepath.antt =====
-- Clean and Join of Go's path/filepath on Unix, as securePath of backend/internal/network/tftp.go,
-- backend/internal/boot, backend/internal/config and backend/internal/backup use them.
pub mod Laws
pub mod Below
use Prim.Native.Char.{Char, code}
use Prim.Native.String.{◌++◌}
use helboot.Prelude.{
  ℕ, String, Bool, true, false, ◌||◌, List, [], ◌∷◌, nat_eq, ◌==◌, String_eq, if◌then◌else◌,
}

-- The separator.
abbrev pub slash : ℕ
slash = b'/'

add_char : Char → List String → List String
add_char c [] = String.◌∷◌ c "" ∷ []
add_char c (w ∷ ws) = String.◌∷◌ c w ∷ ws

-- The elements between the separators.
unfoldable pub elements : String → List String
unfolding add_char
elements String.[] = "" ∷ []
elements (String.◌∷◌ c s) =
    let rest = elements s in if nat_eq (code c) slash then "" ∷ rest else add_char c rest

unfoldable pub is_rooted : String → Bool
is_rooted String.[] = false
is_rooted (String.◌∷◌ c s) = nat_eq (code c) slash

-- `..` drops the element before it; at the root it is dropped itself. The last element stands first.
unfoldable pub up : Bool → List String → List String
up rooted [] = if rooted then [] else ".." ∷ []
up rooted (d ∷ ds) = if d == ".." then ".." ∷ d ∷ ds else ds

unfoldable pub visit : Bool → List String → String → List String
unfolding up
visit rooted seen w =
    if w == "" || w == "." then seen else if w == ".." then up rooted seen else w ∷ seen

unfoldable pub walk : Bool → List String → List String → List String
walk rooted seen [] = seen
walk rooted seen (w ∷ ws) = walk rooted (visit rooted seen w) ws

unfoldable pub joined : List String → String
joined [] = ""
joined (w ∷ []) = w
joined (w ∷ ws) = joined ws ++ ("/" ++ w)

unfoldable pub render : Bool → List String → String
unfolding joined
render true ws = "/" ++ joined ws
render false [] = "."
render false (w ∷ ws) = joined (w ∷ ws)

-- The elements that are left, the last first.
unfoldable pub cleaned : Bool → String → List String
unfolding walk elements
cleaned rooted p = walk rooted [] (elements p)

-- filepath.Clean
unfoldable pub clean : String → String
unfolding render cleaned
clean p = render (is_rooted p) (cleaned (is_rooted p) p)

-- filepath.Join of two elements: an empty one is left out.
unfoldable pub join : String → String → String
join a b =
    if a == ""
    then (if b == "" then "" else clean b)
    else if b == ""
    then clean a
    else clean (a ++ ("/" ++ b))

unfoldable pub last_element : List String → String
last_element [] = "."
last_element (w ∷ []) = if w == "" then "." else w
last_element (w ∷ ws) = last_element ws

-- filepath.Base of a path that does not end in a separator.
unfoldable pub base : String → String
unfolding last_element elements
base p = last_element (elements p)
