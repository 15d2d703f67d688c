-- ===== src/Network/Tftp.antt =====
-- The TFTP service: securePath and readHandler of backend/internal/network/tftp.go. Reading a file
-- and sending it are the library's.
pub mod Confined
mod Examples
use Prim.Native.Char.{Char, code}
use Prim.Native.String.{◌++◌}
use text.Mathlib.Text.{starts_with}
use helboot.Prelude.{String, Option, none, some, nat_eq, Map, if◌then◌else◌}
use helboot.Filepath.{clean, join}

-- strings.ReplaceAll(s, "\\", "/")
unfoldable pub forward_slashes : String → String
forward_slashes String.[] = ""
forward_slashes (String.◌∷◌ c s) =
    let rest = forward_slashes s in
    if nat_eq (code c) 92 then String.◌∷◌ "/" rest else String.◌∷◌ c rest

-- The test for the prefix; `none` is the error "path escapes tftp root".
unfoldable pub confine : String → String → Option String
confine root path = if starts_with path (clean root ++ "/") then some path else none

unfoldable pub secure_path : String → String → Option String
unfolding forward_slashes confine
secure_path root filename = confine root (join root (clean ("/" ++ forward_slashes filename)))

-- The contents that are sent, from the files of the disk; `none` is an error.
unfoldable pub read_handler : Map String String → String → String → Option String
read_handler files root filename = elim (secure_path root filename) [
  | none ↦ none
  | some path ↦ files path
]
