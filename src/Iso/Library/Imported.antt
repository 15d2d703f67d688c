-- ===== src/Iso/Library/Imported.antt =====
-- An upload is kept as a whole or not at all: Import of backend/internal/iso/iso.go.
use helboot.Prelude.{
  String, ◌≡◌, ◌≢◌, refl, ◌∙◌, ◌⊎◌, inl, inr, Bool, true, false, List, ◌∷◌, Option, none, some,
  arith, String_eq, if◌then◌else◌, update, byte_len, eq-false,
}
use helboot.Time.{Time}
use helboot.Model.{IsoImage}
use helboot.Store.Db.{Db, StoreError, Result, ok, err, not_found}
use helboot.Store.Isos.{iso_by_filename}
use helboot.Filepath.{join}
use helboot.Provider.Manifest.{Manifest}
use helboot.Iso.Library.Rows.{record_image-kept, create_iso_new}
use helboot.Iso.Library.{
  Files, Tools, ImportResult, stored, invalid_filename, record_image, filename_matches, created,
  keep_upload, receive, if_new, import_iso,
}

module _ (tools : Tools) (all : List Manifest) (files : Files) (db : Db)
    (iso_dir filename : String) where
  -- A new row with the name, the size and the digest of the upload, which stands in the directory;
  -- all other files are as they were.
  pub record Kept (content : String) (img : IsoImage) (files' : Files) (db' : Db) : Type 0 where
    pub new_name : iso_by_filename db filename ≡ err not_found
    pub row : iso_by_filename db' filename ≡ ok img
    pub rows : db'.isos ≡ img ∷ db.isos
    pub digest : img.sha256 ≡ tools.sha256 content
    pub size : img.size_bytes ≡ byte_len content
    pub file : files' (join iso_dir filename) ≡ some content
    pub others : (p : String) → join iso_dir filename ≢ p → files' p ≡ files p

  keep_upload-Kept :
      (content : String) (now : Time)
      → iso_by_filename db filename ≡ err not_found
      → (img : IsoImage) × (files' : Files) × (db' : Db) × (keep_upload tools all files db
            (join iso_dir filename)
            filename
            content
            now
          ≡ (stored (ok img), (files', db')))
        × Kept content img files' db'
  unfolding keep_upload created
  keep_upload-Kept content now new =
      let img =
        record_image tools all filename (byte_len content) (tools.sha256 content) (some content) in
      let (named, digest, size) =
        record_image-kept tools all filename (byte_len content) (tools.sha256 content)
          (some content) in
      let (row, db', h, found, rows, sha, bytes) = create_iso_new db filename img now named new in
      (
        row,
        update files (join iso_dir filename) (some content),
        db',
        rw (keep_upload, h) refl,
        record {
          new_name = new;
          row = found;
          rows = rows;
          digest = sha ∙ digest;
          size = bytes ∙ size;
          file =
              rw ((String_eq.equals_iff (join iso_dir filename) (join iso_dir filename)).1 refl)
                refl;
          others = λ p h. rw (eq-false (join iso_dir filename) p h) refl;
        },
      )

  -- Why an import is refused.
  abbrev pub Reason : Option String → Type 0
  Reason upload =
      (filename_matches filename ≡ false)
      ⊎ ((files (join iso_dir filename) ≢ none)
          ⊎ (((img : IsoImage) × (iso_by_filename db filename ≡ ok img)) ⊎ (upload ≡ none)))

  abbrev pub Refused : Option String → ImportResult × (Files × Db) → Type 0
  Refused upload r =
      Reason upload × ((img : IsoImage) → r.0 ≢ stored (ok img)) × (r.1 ≡ (files, db))

  abbrev Whole : Option String → ImportResult × (Files × Db) → Type 0
  Whole upload r =
      Refused upload r
      ⊎ ((content : String) × (img : IsoImage) × (files' : Files) × (db' : Db) × (upload
            ≡ some content)
          × (r ≡ (stored (ok img), (files', db')))
          × Kept content img files' db')

  receive-Whole :
      (upload : Option String) (now : Time) (e : StoreError)
      → iso_by_filename db filename ≡ err e
      → Whole upload (receive tools all files db (join iso_dir filename) filename upload now)
  unfolding receive iso_by_filename
  receive-Whole none now e h = inl (inr (inr (inr refl)), λ img p. absurd (ground arith), refl)
  receive-Whole (some content) now e h =
      let (img, files', db', answer, kept) = keep_upload-Kept content now (ground arith) in
      inr (content, img, files', db', refl, answer, kept)

  if_new-Whole :
      (upload : Option String) (now : Time) (present : Option String) (row : Result IsoImage)
      → files (join iso_dir filename) ≡ present
      → iso_by_filename db filename ≡ row
      → Whole upload
          (if_new tools all files db (join iso_dir filename) filename upload now present row)
  unfolding if_new
  if_new-Whole upload now (some present) row f h =
      inl (inr (inl (λ n. cc)), λ img p. absurd (ground arith), refl)
  if_new-Whole upload now none (ok img) f h =
      inl (inr (inr (inl (img, h))), λ i p. absurd (ground arith), refl)
  if_new-Whole upload now none (err e) f h = receive-Whole upload now e h

  -- An import either gives no row, because its name is not allowed, a file or a row of that name
  -- is there or the upload broke off, and then leaves the files and the database as they were, or
  -- it was received in whole: then its name was new, its row is the newest and is found by the
  -- name, with the size and the digest of the upload, and the upload stands in the directory under
  -- its name, all other files as they were.
  pub import_iso-whole :
      (upload : Option String) (now : Time)
      → Refused upload (import_iso tools all files db iso_dir filename upload now)
        ⊎ ((content : String) × (img : IsoImage) × (files' : Files) × (db' : Db) × (upload
              ≡ some content)
            × (import_iso tools all files db iso_dir filename upload now
                ≡ (stored (ok img), (files', db')))
            × Kept content img files' db')
  unfolding import_iso
  import_iso-whole upload now = go (filename_matches filename) refl
    where
      go :
          (b : Bool)
          → filename_matches filename ≡ b
          → Whole upload (
              if b
              then if_new tools all files db
                  (join iso_dir filename)
                  filename
                  upload
                  now
                  (files (join iso_dir filename))
                  (iso_by_filename db filename)
              else (invalid_filename, (files, db)))
      go true e =
          if_new-Whole upload now (files (join iso_dir filename)) (iso_by_filename db filename) refl
            refl
      go false e = inl (inl e, λ img p. absurd (ground arith), refl)
