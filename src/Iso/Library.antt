-- ===== src/Iso/Library.antt =====
-- The library's files and rows: Manager of backend/internal/iso/iso.go.
pub mod Rows
pub mod Imported
pub mod Scanned
use Prim.Native.Char.{code}
use helboot.Prelude.{
  ℕ, String, Bool, false, ◌&&◌, ◌||◌, List, [], ◌∷◌, ◌++◌, not, Option, none, some, leb, Map,
  update, ◌==◌, String_eq, ℕ_eq, if◌then◌else◌, byte_len, trim_space,
}
use helboot.Time.{Time}
use helboot.Model.{IsoImage, iso_ready, unsupported}
use helboot.Store.Db.{Db, Result, ok, err, StoreError}
use helboot.Store.Isos.{create_iso, iso_by_id, iso_by_filename, delete_iso}
use helboot.Filepath.{join, base}
use helboot.Provider.Manifest.{Manifest}
use helboot.Iso.Image.{Image, detect_bootloader}
use helboot.Iso.Matching.{match_provider}

-- The contents of the files by their paths.
abbrev pub Files : Type 0
Files = Map String String

is_alphanumeric : ℕ → Bool
is_alphanumeric c =
    (leb b'A' c && leb c b'Z') || (leb b'a' c && leb c b'z') || (leb b'0' c && leb c b'9')

is_filename_char : ℕ → Bool
unfolding is_alphanumeric
is_filename_char c = is_alphanumeric c || c == b'.' || c == b'_' || c == b'+' || c == b'-'

-- [A-Za-z0-9._+-]*\.(iso|img)
filename_tail : String → Bool
unfolding is_filename_char
filename_tail String.[] = false
filename_tail (String.◌∷◌ c s) =
    String.◌∷◌ c s == ".iso"
    || String.◌∷◌ c s == ".img"
    || (is_filename_char (code c) && filename_tail s)

-- ^[A-Za-z0-9][A-Za-z0-9._+-]*\.(iso|img)$
unfoldable pub filename_matches : String → Bool
unfolding is_alphanumeric filename_tail
filename_matches String.[] = false
filename_matches (String.◌∷◌ c s) = is_alphanumeric (code c) && filename_tail s

-- `sha256` gives the digest in hexadecimal; `open_image` is none for what is no ISO 9660 image.
pub record Tools : Type 0 where
  pub sha256 : String → String
  pub open_image : String → Option Image
  pub glob : String → String → Bool

-- analysis
pub record Analysis : Type 0 where
  pub volume_id : String
  pub bootloader : String
  pub provider : Option Manifest

pub data ImportResult : Type 0 where
  invalid_filename already_exists broken_upload : ImportResult
  stored : Result IsoImage → ImportResult

created : Files → Db → Result (IsoImage × Db) → ImportResult × (Files × Db)
created files db (err e) = (stored (err e), (files, db))
created files db (ok (img, db')) = (stored (ok img), (files, db'))

-- An entry of the directory, with its content where it can be read.
pub record ScanEntry : Type 0 where
  pub name : String
  pub is_dir : Bool
  pub content : Option String

pub data ScanFailure : Type 0 where
  unreadable_directory : ScanFailure
  store_failed : StoreError → ScanFailure

-- The rows that were added, and the error.
pub record Scan : Type 0 where
  pub db : Db
  pub added : List IsoImage
  pub failure : Option ScanFailure

unfoldable pub index_row : Scan → Result (IsoImage × Db) → Scan
index_row s (err e) = record s { failure = some (store_failed e) }
index_row s (ok (img, db')) = record s { db = db'; added = s.added ++ (img ∷ []) }

module _ (tools : Tools) (all : List Manifest) where
  unfoldable pub analyze_label : Image → Option String → Option Analysis
  analyze_label img none = none
  analyze_label img (some label) = some (record {
    volume_id = trim_space label;
    bootloader = detect_bootloader img;
    provider = match_provider tools.glob all img (trim_space label);
  })

  -- `none` is an error.
  unfoldable pub analyze : Option String → Option Analysis
  unfolding analyze_label
  analyze none = none
  analyze (some content) = elim (tools.open_image content) [
    | none ↦ none
    | some img ↦ analyze_label img img.label
  ]

  unfoldable pub with_provider : IsoImage → Option Manifest → IsoImage
  with_provider img none = img
  with_provider img (some m) = record img {
    provider = m.name;
    os_name = m.display_name;
    install_method = m.answer_file.format;
    status = iso_ready;
  }

  unfoldable pub with_analysis : IsoImage → Option Analysis → IsoImage
  unfolding with_provider
  with_analysis img none = img
  with_analysis img (some a) =
      with_provider (record img { os_name = a.volume_id; bootloader = a.bootloader }) a.provider

  -- Manager.record: `on_disk` is the file, as it is read back.
  unfoldable pub record_image : String → ℕ → String → Option String → IsoImage
  unfolding with_analysis analyze
  record_image filename size sha on_disk =
      with_analysis
        (record {
          id = 0;
          filename = filename;
          provider = "";
          os_name = "";
          version = "";
          arch = "";
          bootloader = "";
          install_method = "";
          size_bytes = size;
          sha256 = sha;
          status = unsupported;
          created_at = 0;
        })
        (analyze on_disk)

  -- The end of Import, on an upload that was received.
  unfoldable pub keep_upload :
      Files → Db → String → String → String → Time → ImportResult × (Files × Db)
  unfolding created record_image
  keep_upload files db target filename content now =
      let img = record_image filename (byte_len content) (tools.sha256 content) (some content) in
      created (update files target (some content)) db (create_iso db img now)

  unfoldable pub receive :
      Files → Db → String → String → Option String → Time → ImportResult × (Files × Db)
  unfolding keep_upload
  receive files db target filename none now = (broken_upload, (files, db))
  receive files db target filename (some content) now =
      keep_upload files db target filename content now

  unfoldable pub if_new :
      Files
      → Db
      → String
      → String
      → Option String
      → Time
      → Option String
      → Result IsoImage
      → ImportResult × (Files × Db)
  unfolding receive
  if_new files db target filename upload now (some present) row = (already_exists, (files, db))
  if_new files db target filename upload now none (ok img) = (already_exists, (files, db))
  if_new files db target filename upload now none (err e) =
      receive files db target filename upload now

  -- Manager.Import: `upload` is none where reading it breaks off.
  unfoldable pub import_iso :
      Files → Db → String → String → Option String → Time → ImportResult × (Files × Db)
  unfolding if_new
  import_iso files db iso_dir filename upload now =
      if filename_matches filename
      then if_new files db (join iso_dir filename) filename upload now
          (files (join iso_dir filename)) (iso_by_filename db filename)
      else (invalid_filename, (files, db))

  unfoldable pub index_content : Scan → String → Option String → Time → Scan
  unfolding index_row record_image
  index_content s name none now = s
  index_content s name (some content) now = index_row s (
      create_iso s.db (record_image name (byte_len content) (tools.sha256 content) (some content))
        now)

  unfoldable pub index_new : Scan → ScanEntry → Time → Result IsoImage → Scan
  unfolding index_content
  index_new s e now (ok img) = s
  index_new s e now (err error) = index_content s e.name e.content now

  unfoldable pub scan_entry : Scan → ScanEntry → Time → Scan
  unfolding index_new
  scan_entry s e now =
      if e.is_dir || not (filename_matches e.name)
      then s
      else index_new s e now (iso_by_filename s.db e.name)

  -- The loop of ScanDir, which returns at a failure of the store.
  unfoldable pub scan_entries : Option ScanFailure → List ScanEntry → Time → Scan → Scan
  unfolding scan_entry
  scan_entries (some e) es now s = s
  scan_entries none [] now s = s
  scan_entries none (e ∷ es) now s =
      let s' = scan_entry s e now in scan_entries s'.failure es now s'

  -- The entries that os.ReadDir gives; `none` is its error.
  unfoldable pub scan_dir : Db → Option (List ScanEntry) → Time → Scan
  unfolding scan_entries
  scan_dir db none now = record { db = db; added = []; failure = some unreadable_directory }
  scan_dir db (some es) now =
      scan_entries none es now (record { db = db; added = []; failure = none })

removed : Files → String → IsoImage → Db → Result Db → Option StoreError × (Files × Db)
removed files iso_dir img db (err e) = (some e, (files, db))
removed files iso_dir img db (ok db') =
    (none, (update files (join iso_dir (base img.filename)) none, db'))

found_row : Files → String → Db → ℕ → Result IsoImage → Option StoreError × (Files × Db)
unfolding removed
found_row files iso_dir db id (err e) = (some e, (files, db))
found_row files iso_dir db id (ok img) = removed files iso_dir img db (delete_iso db id)

-- Manager.Delete
unfoldable pub delete_image : Files → String → Db → ℕ → Option StoreError × (Files × Db)
unfolding found_row
delete_image files iso_dir db id = found_row files iso_dir db id (iso_by_id db id)
