-- ===== src/Provider/Registry/Listing.antt =====
-- The listing of the providers: All of backend/internal/provider/registry.go.
use helboot.Prelude.{String, ◌≡◌}
use helboot.Sorting.Laws.{IsSorted, sort_by-IsSorted, first-sort_by}
use helboot.Provider.Registry.{Providers, get, all}

-- The listing is sorted by name, and holds for each name the manifest that the registry gives.
pub all-Listed :
    (r : Providers)
    → IsSorted (λ m. m.name) (all r) × ((name : String) → get (all r) name ≡ get r name)
unfolding all get
all-Listed r = (sort_by-IsSorted (λ m. m.name) r, first-sort_by (λ m. m.name) r)
