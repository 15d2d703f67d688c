-- ===== src/Sorting.antt =====
-- sort.Slice by a text, as Registry.All of backend/internal/provider/registry.go and Sightings of
-- backend/internal/network/observer.go call it.
pub mod Laws
use Prim.Native.Nat.{Ordering}
use Prim.Native.String.{compare}
use helboot.Prelude.{String, Bool, true, false, List, [], ◌∷◌, if◌then◌else◌}

-- a < b on texts.
unfoldable pub text_lt : String → String → Bool
text_lt a b = elim (compare a b) [ Ordering.lt ↦ true | _ ↦ false ]

module _ {ℓ} {A : Type ℓ} (key : A → String) where
  unfoldable pub insert_sorted : A → List A → List A
  unfolding text_lt
  insert_sorted m [] = m ∷ []
  insert_sorted m (p ∷ ps) =
      let rest = insert_sorted m ps in if text_lt (key p) (key m) then p ∷ rest else m ∷ p ∷ ps

  unfoldable pub sort_by : List A → List A
  unfolding insert_sorted
  sort_by [] = []
  sort_by (m ∷ ms) = insert_sorted m (sort_by ms)
