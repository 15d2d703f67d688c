-- ===== src/Provider/Registry.antt =====
-- The registry of providers: backend/internal/provider/registry.go, and Validate of provider.go.
-- Reading a file and decoding YAML are arguments: what they give stands in the directory's entries.
pub mod Latest
pub mod Listing
mod Examples
use Prim.Native.Char.{code}
use helboot.Prelude.{
  ℕ, String, Bool, true, false, not, ◌&&◌, ◌||◌, List, [], ◌∷◌, Option, none, some, leb, ◌==◌,
  String_eq, ℕ_eq, if◌then◌else◌, first, keep,
}
use helboot.Sorting.{sort_by}
use helboot.Filepath.{join}
use helboot.Provider.Schema.Loading.{SchemaError, validate_schema}
use helboot.Provider.Manifest.{Manifest, BootConfig, Registry}

pub data ManifestError : Type 0 where
  bad_name no_display_name no_family no_capability unknown_boot_method : ManifestError
  bad_schema : SchemaError → ManifestError

is_name_char : ℕ → Bool
is_name_char c = (leb b'a' c && leb c b'z') || (leb b'0' c && leb c b'9')

name_tail : String → Bool
unfolding is_name_char
name_tail String.[] = true
name_tail (String.◌∷◌ c s) = (is_name_char (code c) || code c == b'-') && name_tail s

-- ^[a-z0-9][a-z0-9-]*$
unfoldable pub name_matches : String → Bool
unfolding is_name_char name_tail
name_matches String.[] = false
name_matches (String.◌∷◌ c s) = is_name_char (code c) && name_tail s

unfoldable pub known_method : String → Bool
known_method m = m == "pxe" || m == "http_boot" || m == "usb_boot"

-- The loop over the boot methods.
unfoldable pub methods_known : List (String × BootConfig) → Bool
unfolding known_method
methods_known [] = true
methods_known ((m, c) ∷ boot) = known_method m && methods_known boot

schema_error : Option SchemaError → Option ManifestError
schema_error none = none
schema_error (some e) = some (bad_schema e)

is_empty : List (String × Bool) → Bool
is_empty [] = true
is_empty (c ∷ cs) = false

-- Manifest.Validate; `none` is a nil error.
unfoldable pub validate : Manifest → Option ManifestError
unfolding name_matches methods_known schema_error is_empty
validate m =
    if not (name_matches m.name)
    then some bad_name
    else if m.display_name == ""
    then some no_display_name
    else if m.family == ""
    then some no_family
    else if is_empty m.capabilities
    then some no_capability
    else if not (methods_known m.boot)
    then some unknown_boot_method
    else schema_error (validate_schema m.settings_schema)

-- A file provider.yaml that is missing, that cannot be read or is no YAML of the shape, or a manifest.
pub data ManifestFile : Type 0 where
  no_file unreadable : ManifestFile
  parsed : Manifest → ManifestFile

pub record DirEntry : Type 0 where
  pub name : String
  pub is_dir : Bool
  pub file : ManifestFile

pub data Directory : Type 0 where
  missing failing : Directory
  entries : List DirEntry → Directory

-- r.providers, with one manifest for a name.
abbrev pub Providers : Type 0
Providers = List Manifest

-- r.providers[m.Name] = m
unfoldable pub put : Manifest → Providers → Providers
put m r = m ∷ keep (λ p. not (p.name == m.name)) r

-- Registry.Get
unfoldable pub get : Providers → Registry
get r name = first (λ m. m.name == name) r

-- loadManifest, without the reason of an error.
unfoldable pub load_manifest : ManifestFile → Option Manifest
unfolding validate
load_manifest no_file = none
load_manifest unreadable = none
load_manifest (parsed m) = elim (validate m) [ none ↦ some m | some e ↦ none ]

unfoldable pub named_as : String → String → Option Manifest → Option Manifest
named_as dir name none = none
named_as dir name (some m) =
    if m.name == name then some (record m { dir = join dir name }) else none

-- What one entry of the directory `dir` adds.
unfoldable pub load_entry : String → DirEntry → Option Manifest
unfolding load_manifest named_as
load_entry dir e = if e.is_dir then named_as dir e.name (load_manifest e.file) else none

unfoldable pub put_some : Option Manifest → Providers → Providers
unfolding put
put_some none r = r
put_some (some m) r = put m r

unfoldable pub load_entries : String → List DirEntry → Providers → Providers
unfolding load_entry put_some
load_entries dir [] r = r
load_entries dir (e ∷ es) r = load_entries dir es (put_some (load_entry dir e) r)

-- Registry.loadDir; `none` is an error.
unfoldable pub load_dir : String → Directory → Providers → Option Providers
unfolding load_entries
load_dir dir missing r = some r
load_dir dir failing r = none
load_dir dir (entries es) r = some (load_entries dir es r)

unfoldable pub load_all : List (String × Directory) → Providers → Option Providers
unfolding load_dir
load_all [] r = some r
load_all ((dir, d) ∷ dirs) r = elim (load_dir dir d r) [ none ↦ none | some r' ↦ load_all dirs r' ]

-- LoadDirs
unfoldable pub load_dirs : List (String × Directory) → Option Providers
unfolding load_all
load_dirs dirs = load_all dirs []

-- Registry.All: sort.Slice by name.
unfoldable pub all : Providers → List Manifest
unfolding sort_by
all r = sort_by (λ m. m.name) r
