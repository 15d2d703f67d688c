-- ===== src/Iso/Library/Scanned.antt =====
-- What a scan of the directory leaves: ScanDir of backend/internal/iso/iso.go.
use helboot.Prelude.{
  ◌⊎◌, String, ◌≡◌, ◌≢◌, refl, ap, ◌∙◌, inl, inr, true, false, not, ◌||◌, List, [], ◌∷◌, Option,
  none, some, arith, String_eq, Bool-cases, Option-cases, All, byte_len,
}
use helboot.Time.{Time}
use helboot.Model.{IsoImage}
use helboot.Store.Db.{Db, Result, ok, err, not_found}
use helboot.Store.Isos.{iso_by_filename}
use helboot.Provider.Manifest.{Manifest}
use helboot.Iso.Library.{
  unreadable_directory, Tools, ScanEntry, Scan, record_image, filename_matches, index_row,
  index_content, index_new, scan_entry, scan_entries, scan_dir,
}
use helboot.Iso.Library.Rows.{record_image-kept, create_iso_new, Indexed, create_iso-Indexed}

-- A readable file whose name the pattern allows has a row.
abbrev pub Covered : Db → ScanEntry → Type 0
Covered db e =
    e.is_dir ≡ false → filename_matches e.name ≡ true → e.content ≢ none → Indexed db e.name

module _ (tools : Tools) (all : List Manifest) where
  -- One entry: the scan does not fail, it covers the entry, and no row is lost.
  record Step (s s' : Scan) (e : ScanEntry) : Type 0 where
    no_failure : s'.failure ≡ none
    covered : Covered s'.db e
    kept : (name : String) → Indexed s.db name → Indexed s'.db name

  index_content-Step :
      (s : Scan) (e : ScanEntry) (now : Time)
      → s.failure ≡ none
      → iso_by_filename s.db e.name ≡ err not_found
      → Step s (index_content tools all s e.name e.content now) e
  unfolding index_content
  index_content-Step s e now h new = go e.content refl
    where
      go : (c : Option String) → e.content ≡ c → Step s (index_content tools all s e.name c now) e
      go none n = record { no_failure = h; covered = λ d m c. absurd (c n); kept = λ name i. i }
      go (some content) k =
          let img =
            record_image tools all e.name (byte_len content) (tools.sha256 content)
              (some content) in
          let (named, sha, size) =
            record_image-kept tools all e.name (byte_len content) (tools.sha256 content)
              (some content) in
          let (row, db', made, found, rows, digest, bytes) =
            create_iso_new s.db e.name img now named new in
          rw (index_content, made, index_row)
            (record {
              no_failure = h;
              covered = λ d m c. (row, found);
              kept = λ name i. create_iso-Indexed s.db db' row name rows i;
            })

  index_new-Step :
      (s : Scan) (e : ScanEntry) (now : Time) (r : Result IsoImage)
      → s.failure ≡ none
      → iso_by_filename s.db e.name ≡ r
      → Step s (index_new tools all s e now r) e
  unfolding index_new iso_by_filename
  index_new-Step s e now (ok img) h k = record {
    no_failure = h;
    covered = λ d m c. (img, k);
    kept = λ name i. i;
  }
  index_new-Step s e now (err error) h k = index_content-Step s e now h (ground arith)

  scan_entry-Step :
      (s : Scan) (e : ScanEntry) (now : Time)
      → s.failure ≡ none
      → Step s (scan_entry tools all s e now) e
  unfolding scan_entry
  scan_entry-Step s e now h = elim (Bool-cases (e.is_dir || not (filename_matches e.name))) [
    | inl skip ↦
        rw (skip, scan_entry)
          (record { no_failure = h; covered = λ d m c. absurd (ground arith); kept = λ name i. i })
    | inr take ↦ rw (take, scan_entry) (index_new-Step s e now (iso_by_filename s.db e.name) h refl)
  ]

  -- The loop covers all entries.
  record Covers (s s' : Scan) (es : List ScanEntry) : Type 0 where
    unfailing : s'.failure ≡ none
    covering : All (Covered s'.db) es
    keeping : (name : String) → Indexed s.db name → Indexed s'.db name

  scan_entries-Covers :
      (es : List ScanEntry) (now : Time) (s : Scan)
      → s.failure ≡ none
      → Covers s (scan_entries tools all none es now s) es
  unfolding scan_entries
  scan_entries-Covers [] now s h = record { unfailing = h; covering = tt; keeping = λ name i. i }
  scan_entries-Covers (e ∷ es) now s h =
      let s' = scan_entry tools all s e now in
      let step = scan_entry-Step s e now h in
      let rest = scan_entries-Covers es now s' step.no_failure in
      rw (scan_entries, step.no_failure)
        (record {
          unfailing = rest.unfailing;
          covering = ((λ d m c. rest.keeping e.name (step.covered d m c)), rest.covering);
          keeping = λ name i. rest.keeping name (step.kept name i);
        })

  -- Where all entries are covered, a scan adds nothing.
  index_row_covered :
      (s : Scan) (e : ScanEntry) (now : Time) (r : Result IsoImage)
      → iso_by_filename s.db e.name ≡ r
      → (e.content ≢ none → Indexed s.db e.name)
      → index_new tools all s e now r ≡ s
  unfolding index_new index_content
  index_row_covered s e now (ok img) k c = refl
  index_row_covered s e now (err error) k c = elim (Option-cases e.content) [
    | inl n ↦ rw (n, index_new, index_content) refl
    | inr (content, f) ↦ let (img, found) = c (λ n. cc) in absurd (ground arith)
  ]

  scan_entry-Covered :
      (s : Scan) (e : ScanEntry) (now : Time) → Covered s.db e → scan_entry tools all s e now ≡ s
  unfolding scan_entry
  scan_entry-Covered s e now c = elim (Bool-cases (e.is_dir || not (filename_matches e.name))) [
    | inl skip ↦ rw skip refl
    | inr take ↦ rw take (
        index_row_covered s e now (iso_by_filename s.db e.name) refl
          (c (ground arith) (ground arith)))
  ]

  scan_entries-Covered :
      (es : List ScanEntry) (now : Time) (s : Scan)
      → s.failure ≡ none
      → All (Covered s.db) es
      → scan_entries tools all none es now s ≡ s
  unfolding scan_entries
  scan_entries-Covered [] now s h c = refl
  scan_entries-Covered (e ∷ es) now s h (c, cs) =
      ap (λ t. scan_entries tools all t.failure es now t) (scan_entry-Covered s e now c)
      ∙ ap (λ f. scan_entries tools all f es now s) h
      ∙ scan_entries-Covered es now s h cs

  -- A scan fails only where the directory cannot be read, and then leaves the database as it was;
  -- after any other scan every readable file of the directory whose name is allowed has a row, and
  -- a name that had a row before still has one; and the next scan of the same files adds nothing
  -- and leaves the database as it is.
  pub scan_dir-Covered :
      (db : Db) (listing : Option (List ScanEntry)) (now next : Time)
      → let after = scan_dir tools all db listing now in
        ((listing ≡ none)
          × (after ≡ record { db = db; added = []; failure = some unreadable_directory }))
        ⊎ ((es : List ScanEntry) × (listing ≡ some es)
            × (after.failure ≡ none)
            × All (Covered after.db) es
            × ((name : String) → Indexed db name → Indexed after.db name)
            × (scan_dir tools all after.db listing next
                ≡ record { db = after.db; added = []; failure = none }))
  unfolding scan_dir
  scan_dir-Covered db none now next = inl (refl, refl)
  scan_dir-Covered db (some es) now next =
      let covers =
        scan_entries-Covers es now (record { db = db; added = []; failure = none }) refl in
      let after = scan_dir tools all db (some es) now in
      inr (
        es,
        refl,
        covers.unfailing,
        covers.covering,
        covers.keeping,
        scan_entries-Covered es next (record { db = after.db; added = []; failure = none }) refl
            covers.covering,
      )
