-- ===== src/Iso/Library/Rows.antt =====
-- The rows of images: record of backend/internal/iso/iso.go, and the table of
-- backend/internal/store/isos.go.
use helboot.Prelude.{
  ℕ, String, ◌≡◌, refl, false, List, ◌∷◌, Option, none, some, inl, inr, arith, ◌==◌, String_eq,
  Bool-cases, Option-cases, first,
}
use helboot.Time.{Time}
use helboot.Model.{IsoImage}
use helboot.Store.Db.{Db, StoreError, ok, err, not_found, Result-cases, exists}
use helboot.Store.Db.Counting.{first_of_count}
use helboot.Store.Isos.{create_iso, iso_by_filename}
use helboot.Provider.Manifest.{Manifest}
use helboot.Iso.Library.{Tools, record_image, with_analysis, with_provider, analyze}

module _ (tools : Tools) (all : List Manifest) (filename : String) where
  with_provider-kept :
      (img : IsoImage) (m : Option Manifest)
      → ((with_provider tools all img m).filename ≡ img.filename)
        × ((with_provider tools all img m).sha256 ≡ img.sha256)
        × ((with_provider tools all img m).size_bytes ≡ img.size_bytes)
  unfolding with_provider
  with_provider-kept img none = (refl, refl, refl)
  with_provider-kept img (some m) = (refl, refl, refl)

  pub record_image-kept :
      (size : ℕ) (sha : String) (on_disk : Option String)
      → ((record_image tools all filename size sha on_disk).filename ≡ filename)
        × ((record_image tools all filename size sha on_disk).sha256 ≡ sha)
        × ((record_image tools all filename size sha on_disk).size_bytes ≡ size)
  unfolding record_image with_analysis
  record_image-kept size sha on_disk = elim (Option-cases (analyze tools all on_disk)) [
    | inl e ↦ rw (e, record_image, with_analysis) (refl, refl, refl)
    | inr (a, e) ↦ rw (e, record_image, with_analysis) (with_provider-kept _ a.provider)
  ]

module _ (db : Db) (filename : String) where
  create_iso-accepted :
      (img : IsoImage) (now : Time) (e : StoreError)
      → img.filename ≡ filename
      → exists (λ i. i.filename == filename) db.isos ≡ false
      → ¬ create_iso db img now ≡ err e
  unfolding create_iso
  create_iso-accepted img now e named new refused =
      let new' : exists (λ i. i.filename == img.filename) db.isos ≡ false = rw named new in
      ground arith

  create_iso_row :
      (img row : IsoImage) (db' : Db) (now : Time)
      → create_iso db img now ≡ ok (row, db')
      → img.filename ≡ filename
      → (iso_by_filename db' filename ≡ ok row)
        × (db'.isos ≡ row ∷ db.isos)
        × (row.sha256 ≡ img.sha256)
        × (row.size_bytes ≡ img.size_bytes)
  unfolding create_iso iso_by_filename
  create_iso_row img row db' now e named =
      let same = (String_eq.equals_iff img.filename filename).1 named in ground arith

  rows_absent :
      iso_by_filename db filename ≡ err not_found
      → first (λ i. i.filename == filename) db.isos ≡ none
  unfolding iso_by_filename
  rows_absent h = ground arith

  -- A row of a new name is added.
  pub create_iso_new :
      (img : IsoImage) (now : Time)
      → img.filename ≡ filename
      → iso_by_filename db filename ≡ err not_found
      → (row : IsoImage) × (db' : Db) × (create_iso db img now ≡ ok (row, db'))
        × (iso_by_filename db' filename ≡ ok row)
        × (db'.isos ≡ row ∷ db.isos)
        × (row.sha256 ≡ img.sha256)
        × (row.size_bytes ≡ img.size_bytes)
  create_iso_new img now named new = elim (Result-cases (create_iso db img now)) [
    | inl (e, h) ↦ absurd (
        create_iso-accepted img now e named
          (first_of_count (λ i. i.filename == filename) db.isos (rows_absent new)) h)
    | inr ((row, db'), h) ↦
        let (found, rows, sha, size) = create_iso_row img row db' now h named in
        (row, db', h, found, rows, sha, size)
  ]

abbrev pub Indexed : Db → String → Type 0
Indexed db name = (img : IsoImage) × (iso_by_filename db name ≡ ok img)

-- No row is lost where one is added.
pub create_iso-Indexed :
    (db db' : Db) (row : IsoImage) (name : String)
    → db'.isos ≡ row ∷ db.isos
    → Indexed db name
    → Indexed db' name
unfolding iso_by_filename
create_iso-Indexed db db' row name e (i, h) = elim (Bool-cases (row.filename == name)) [
  | inl k ↦ (row, rw (e, k) refl)
  | inr k ↦ (i, rw (e, k) h)
]
