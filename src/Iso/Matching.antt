-- ===== src/Iso/Matching.antt =====
-- The provider of an image: match and mostSpecificFileMatch of backend/internal/iso/iso.go.
pub mod Chosen
use helboot.Prelude.{
  String, Bool, true, false, ◌&&◌, ◌||◌, List, [], ◌∷◌, Option, none, some, ltb, length,
  if◌then◌else◌, first, keep,
}
use helboot.Provider.Manifest.{Manifest}
use helboot.Iso.Image.{Image, file_exists}

-- The loop over the patterns of one manifest; `glob` is a path.Match that succeeds without an error.
unfoldable pub matches_volume : (String → String → Bool) → String → List String → Bool
matches_volume glob volume [] = false
matches_volume glob volume (p ∷ ps) = glob p volume || matches_volume glob volume ps

unfoldable pub all_exist : Image → List String → Bool
unfolding file_exists
all_exist img [] = true
all_exist img (f ∷ fs) = file_exists img f && all_exist img fs

-- A manifest with file rules of which all files are in the image.
unfoldable pub fits_files : Image → List String → Bool
unfolding all_exist
fits_files img [] = false
fits_files img (f ∷ fs) = all_exist img (f ∷ fs)

-- best == nil || len(files) > len(best.Detection.Files)
unfoldable pub improves : Option Manifest → Manifest → Bool
improves none c = true
improves (some best) c = ltb (length best.detection.files) (length c.detection.files)

-- The loop of mostSpecificFileMatch, with the best candidate so far.
unfoldable pub most_specific : Image → Option Manifest → List Manifest → Option Manifest
unfolding fits_files improves
most_specific img best [] = best
most_specific img best (c ∷ cs) =
    most_specific img (if fits_files img c.detection.files && improves best c then some c else best)
      cs

-- The switch on the number of candidates, and the loop over the file rules.
unfoldable pub choose : Image → List Manifest → List Manifest → Option Manifest
unfolding most_specific fits_files
choose img all [] = first (λ m. fits_files img m.detection.files) all
choose img all (c ∷ []) = some c
choose img all (c ∷ d ∷ cs) = elim (most_specific img none (c ∷ d ∷ cs)) [
  | some best ↦ some best
  | none ↦ some c
]

-- `all` is Registry.All.
unfoldable pub match_provider :
    (String → String → Bool) → List Manifest → Image → String → Option Manifest
unfolding choose matches_volume
match_provider glob all img volume =
    choose img all (keep (λ m. matches_volume glob volume m.detection.volume_id_patterns) all)
