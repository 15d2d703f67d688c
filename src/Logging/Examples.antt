-- ===== src/Logging/Examples.antt =====
-- The theorem on the ring of log entries at a concrete history, and a test.
use helboot.Prelude.{ℕ, ltb, List, [], ◌∷◌, ◌≡◌, refl, keep, if◌then◌else◌}
use helboot.Logging.{Entry, entries}
use helboot.Logging.Slots.{recorded}
use helboot.Logging.Recent.{take, capped, at_level, entries-recorded}

abbrev entry : ℕ → Entry
entry t = record { time = t; level = "INFO"; message = "m" }

abbrev history : List Entry
history = entry 4 ∷ record (entry 3) { level = "DEBUG" } ∷ entry 2 ∷ entry 1 ∷ []

two_of_three : entries (recorded 3 history) 4 0 ≡ entry 4 ∷ entry 2 ∷ []
unfolding entries recorded helboot.Logging.append helboot.Logging.new_ring helboot.Prelude.lower_is
two_of_three = refl

entries-recorded_example :
    entries (recorded 3 history) 4 1
    ≡ capped 1 (keep (at_level 4) (take (if ltb 3 1 then 1 else 3) history))
entries-recorded_example = entries-recorded 3 4 1 history
