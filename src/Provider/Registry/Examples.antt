-- ===== src/Provider/Registry/Examples.antt =====
-- The providers of two directories: backend/internal/provider/registry.go.
use helboot.Prelude.{String, ◌≡◌, refl, true, List, [], ◌∷◌, some, All}
use helboot.Provider.Manifest.{Manifest}
use helboot.Provider.Registry.{
  parsed, no_file, DirEntry, Directory, entries, missing, Providers, get, load_dirs, all,
}
use helboot.Provider.Registry.Latest.{found, latest, IsValid, load_dirs-latest}

abbrev debian : Manifest
debian = record {
  name = "debian";
  display_name = "Debian";
  family = "debian";
  capabilities = ("pxe", true) ∷ [];
  answer_file = record { format = "preseed"; template = "t" };
  settings_schema = [];
  detection = record { volume_id_patterns = []; files = [] };
  boot = [];
  dir = "";
}

abbrev nameless : Manifest
nameless = record debian { name = "No name" }

abbrev custom : Manifest
custom = record debian { display_name = "My Debian" }

abbrev disk : List (String × Directory)
disk =
    (
      "providers",
      entries (
          record { name = "shared"; is_dir = true; file = no_file }
          ∷ record { name = "debian"; is_dir = true; file = parsed debian }
          ∷ record { name = "No name"; is_dir = true; file = parsed nameless }
          ∷ []),
    )
    ∷ ("data/none", missing)
    ∷ (
      "data/providers",
      entries (record { name = "debian"; is_dir = true; file = parsed custom } ∷ []),
    )
    ∷ []

load_dirs-latest_example :
    (r : Providers) × (load_dirs disk ≡ some r)
    × ((name : String) → get r name ≡ latest name (found disk))
    × All IsValid r
load_dirs-latest_example = load_dirs-latest disk (tt, (tt, (tt, tt)))

overridden : latest "debian" (found disk) ≡ some (record custom { dir = "data/providers/debian" })
unfolding helboot.Provider.Registry.load_entry helboot.Provider.Schema.Loading.validate_schema
    helboot.Provider.Schema.Loading.fields_error helboot.Provider.Schema.Loading.dependencies_error
    helboot.Filepath.join helboot.Filepath.clean helboot.Filepath.is_rooted helboot.Filepath.visit
overridden = refl
