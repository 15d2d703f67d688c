-- ===== src/Iso/Examples.antt =====
-- The library at a small directory: backend/internal/iso/iso.go.
use helboot.Prelude.{
  String, ◌≡◌, ◌⊎◌, refl, true, false, List, [], ◌∷◌, none, some, All, ◌==◌, String_eq,
}
use helboot.Model.{IsoImage}
use helboot.Store.Db.{Db, empty_db, ok}
use helboot.Provider.Manifest.{Manifest}
use helboot.Iso.Image.{Image, file, dir, child, no_more, find_file, detect_bootloader}
use helboot.Iso.Matching.{match_provider}
use helboot.Iso.Matching.Chosen.{Choice, match_provider-Choice}
use helboot.Iso.Library.{
  Files, Tools, ScanEntry, stored, filename_matches, import_iso, scan_dir, unreadable_directory,
}
use helboot.Iso.Library.Rows.{Indexed}
use helboot.Iso.Library.Imported.{Refused, Kept, import_iso-whole}
use helboot.Iso.Library.Scanned.{Covered, scan_dir-Covered}

-- Two versions of a system share the pattern of their volume identifier.
abbrev older : Manifest
older = record {
  name = "windows10";
  display_name = "Windows 10";
  family = "windows";
  capabilities = ("iso", true) ∷ [];
  answer_file = record { format = "autounattend.xml"; template = "t" };
  settings_schema = [];
  detection = record { volume_id_patterns = "CCCOMA" ∷ []; files = "setup.exe" ∷ [] };
  boot = [];
  dir = "";
}

abbrev newer : Manifest
newer = record older {
  name = "windows11";
  detection = record {
    volume_id_patterns = "CCCOMA" ∷ [];
    files = "setup.exe" ∷ "/sources/appraiserres.dll" ∷ [];
  };
}

abbrev image : Image
image = record {
  root = some (
      dir (
        child "SETUP.EXE;1" (file "s") (
          child "SOURCES" (dir (child "APPRAISERRES.DLL;1" (file "a") no_more))
            (child "EFI" (dir no_more) no_more))));
  label = some "CCCOMA ";
}

abbrev tools : Tools
tools = record { sha256 = λ s. "digest"; open_image = λ s. some image; glob = λ p v. p == v }

in_a_directory : find_file image "sources/appraiserres.dll" ≡ some (file "a")
unfolding find_file
in_a_directory = refl

only_efi : detect_bootloader image ≡ "uefi"
unfolding detect_bootloader
only_efi = refl

more_files_win : match_provider tools.glob (older ∷ newer ∷ []) image "CCCOMA" ≡ some newer
unfolding match_provider
more_files_win = refl

match_provider-Choice_example :
    Choice tools.glob
      (older ∷ newer ∷ [])
      image
      "CCCOMA"
      (match_provider tools.glob (older ∷ newer ∷ []) image "CCCOMA")
match_provider-Choice_example = match_provider-Choice tools.glob (older ∷ newer ∷ []) image "CCCOMA"

no_traversal : filename_matches "../x.iso" ≡ false
unfolding filename_matches
no_traversal = refl

plain_name : filename_matches "win-11.iso" ≡ true
unfolding filename_matches
plain_name = refl

abbrev no_files : Files
no_files p = none

import_iso-whole_example :
    Refused tools
      (newer ∷ [])
      no_files
      empty_db
      "isos"
      "w.iso"
      (some "x")
      (import_iso tools (newer ∷ []) no_files empty_db "isos" "w.iso" (some "x") 5)
    ⊎ ((content : String) × (img : IsoImage) × (files' : Files) × (db' : Db) × (some "x"
          ≡ some content)
        × (import_iso tools (newer ∷ []) no_files empty_db "isos" "w.iso" (some "x") 5
            ≡ (stored (ok img), (files', db')))
        × Kept tools (newer ∷ []) no_files empty_db "isos" "w.iso" content img files' db')
import_iso-whole_example =
    import_iso-whole tools (newer ∷ []) no_files empty_db "isos" "w.iso" (some "x") 5

abbrev listing : List ScanEntry
listing =
    record { name = "w.iso"; is_dir = false; content = some "x" }
    ∷ record { name = "notes.txt"; is_dir = false; content = some "y" }
    ∷ []

abbrev scanned : Db
scanned = (scan_dir tools (newer ∷ []) empty_db (some listing) 5).db

scan_dir-Covered_example :
    ((some listing ≡ none)
      × (scan_dir tools (newer ∷ []) empty_db (some listing) 5
          ≡ record { db = empty_db; added = []; failure = some unreadable_directory }))
    ⊎ ((es : List ScanEntry) × (some listing ≡ some es)
        × ((scan_dir tools (newer ∷ []) empty_db (some listing) 5).failure ≡ none)
        × All (Covered scanned) es
        × ((name : String) → Indexed empty_db name → Indexed scanned name)
        × (scan_dir tools (newer ∷ []) scanned (some listing) 6
            ≡ record { db = scanned; added = []; failure = none }))
scan_dir-Covered_example = scan_dir-Covered tools (newer ∷ []) empty_db (some listing) 5 6
