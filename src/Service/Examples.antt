-- ===== src/Service/Examples.antt =====
-- The theorems on the supervisor at concrete turns, and a test.
use helboot.Prelude.{ℕ, ◌*◌, ◌≡◌, refl, List, [], ◌∷◌}
use helboot.Time.{second}
use helboot.Service.{Turn, ended, crashed, run_service}

abbrev runs : List ℕ
runs = 0 ∷ second ∷ 0 ∷ []

waits :
    run_service (crashed 0 ∷ crashed 1 ∷ crashed (61 * second) ∷ ended ∷ [])
    ≡ second ∷ 2 * second ∷ second ∷ []
unfolding run_service helboot.Service.supervise
waits = refl
