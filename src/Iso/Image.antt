-- ===== src/Iso/Image.antt =====
-- What an image holds: findFile, fileExists and detectBootloader of backend/internal/iso/iso.go.
use Prim.Native.Char.{code}
use helboot.Prelude.{
  String, Bool, true, false, ◌&&◌, ◌||◌, List, [], ◌∷◌, Option, none, some, nat_eq, ◌==◌, String_eq,
  if◌then◌else◌, nocase_eq,
}
use helboot.Filepath.{slash, elements}

-- The children of a directory are named; a directory may fail to list them.
mutual
  pub data Node : Type 0 where
    file : String → Node
    broken_dir : Node
    dir : Children → Node

  pub data Children : Type 0 where
    no_more : Children
    child : String → Node → Children → Children

-- The root directory and the volume identifier, where they can be read.
pub record Image : Type 0 where
  pub root : Option Node
  pub label : Option String

-- strings.TrimSuffix(name, ";1")
unfoldable pub trim_version : String → String
trim_version String.[] = ""
trim_version (String.◌∷◌ c s) =
    let rest = trim_version s in if String.◌∷◌ c s == ";1" then "" else String.◌∷◌ c rest

trim_slash_left : String → String
trim_slash_left String.[] = ""
trim_slash_left (String.◌∷◌ c s) =
    let rest = trim_slash_left s in if nat_eq (code c) slash then rest else String.◌∷◌ c s

trim_slash_right : String → String
trim_slash_right String.[] = ""
trim_slash_right (String.◌∷◌ c s) =
    let rest = trim_slash_right s in
    if nat_eq (code c) slash && rest == "" then "" else String.◌∷◌ c rest

-- strings.Split(strings.Trim(p, "/"), "/")
unfoldable pub segments : String → List String
unfolding trim_slash_left trim_slash_right elements
segments p = elements (trim_slash_right (trim_slash_left p))

-- The inner loop: the first child of that name, by strings.EqualFold on ASCII.
unfoldable pub find_child : String → Children → Option Node
unfolding trim_version nocase_eq
find_child segment no_more = none
find_child segment (child name node rest) =
    let later = find_child segment rest in
    if nocase_eq (trim_version name) segment then some node else later

unfoldable pub child_of : String → Node → Option Node
unfolding find_child
child_of segment (file content) = none
child_of segment broken_dir = none
child_of segment (dir children) = find_child segment children

-- The loop over the segments; `none` where nothing was found so far.
unfoldable pub descend : List String → Option Node → Option Node
unfolding child_of
descend [] at = at
descend (s ∷ ss) none = none
descend (s ∷ ss) (some node) = descend ss (child_of s node)

unfoldable pub find_file : Image → String → Option Node
unfolding descend segments
find_file img p = descend (segments p) img.root

unfoldable pub file_exists : Image → String → Bool
unfolding find_file
file_exists img p = elim (find_file img p) [ none ↦ false | some node ↦ true ]

unfoldable pub detect_bootloader : Image → String
unfolding file_exists
detect_bootloader img =
    let efi = file_exists img "EFI" || file_exists img "efi" in
    let bios =
      file_exists img "isolinux"
      || file_exists img "boot/syslinux"
      || file_exists img "boot/grub" in
    if efi && bios then "hybrid" else if efi then "uefi" else if bios then "bios" else ""
