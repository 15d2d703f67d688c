-- ===== src/Store/Isos.antt =====
-- The table iso_images: backend/internal/store/isos.go.
use helboot.Prelude.{
  ℕ, ◌+◌, String, not, ◌∷◌, Option, none, some, map, ◌==◌, ℕ_eq, String_eq, if◌then◌else◌, first,
  keep,
}
use helboot.Time.{Time, format_time}
use helboot.Model.{IsoImage, Profile}
use helboot.Store.Db.{Db, Result, ok, err, not_found, constraint, or_not_found, exists}

-- UNIQUE (filename)
unfoldable pub create_iso : Db → IsoImage → Time → Result (IsoImage × Db)
create_iso db img now =
    let id = db.last_iso + 1 in
    let row = record img { id = id; created_at = format_time now } in
    if exists (λ i. i.filename == img.filename) db.isos
    then err constraint
    else ok (row, record db { isos = row ∷ db.isos; last_iso = id })

unfoldable pub iso_by_id : Db → ℕ → Result IsoImage
iso_by_id db id = or_not_found (first (λ i. i.id == id) db.isos)

unfoldable pub iso_by_filename : Db → String → Result IsoImage
iso_by_filename db name = or_not_found (first (λ i. i.filename == name) db.isos)

clear_iso : ℕ → Option ℕ → Option ℕ
clear_iso id none = none
clear_iso id (some i) = if i == id then none else some i

-- iso_id … ON DELETE SET NULL
unfoldable pub delete_iso : Db → ℕ → Result Db
unfolding clear_iso
delete_iso db id =
    if exists (λ i. i.id == id) db.isos
    then ok (record db {
      isos = keep (λ i. not (i.id == id)) db.isos;
      profiles = map {A = Profile} (λ p. record p { iso_id = clear_iso id p.iso_id }) db.profiles;
    })
    else err not_found
