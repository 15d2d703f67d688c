-- ===== src/Service.antt =====
-- The supervisor of the network services: supervise of backend/internal/service/manager.go. Each
-- service has a loop of its own, and shares nothing with the others.
pub mod Backoff
mod Examples
use helboot.Prelude.{ℕ, ◌*◌, min, List, [], ◌∷◌, if◌then◌else◌}
use helboot.Time.{Time, second, minute, after}

abbrev pub initial_backoff : ℕ
initial_backoff = second

abbrev pub max_backoff : ℕ
max_backoff = 30 * second

-- One turn of the loop: the service ends for good (a cancelled context, no error or Canceled), or
-- crashes after it ran for a time, and the context is cancelled while the loop waits, or not.
pub data Turn : Type 0 where
  ended : Turn
  crashed crashed_then_cancelled : ℕ → Turn

unfoldable pub wait_after : ℕ → ℕ → ℕ
wait_after backoff ran = if after ran minute then initial_backoff else backoff

-- The waits of the loop, with the backoff that it holds.
unfoldable pub supervise : ℕ → List Turn → List ℕ
unfolding wait_after
supervise backoff [] = []
supervise backoff (ended ∷ turns) = []
supervise backoff (crashed_then_cancelled ran ∷ turns) = wait_after backoff ran ∷ []
supervise backoff (crashed ran ∷ turns) =
    let wait = wait_after backoff ran in wait ∷ supervise (min (wait * 2) max_backoff) turns

unfoldable pub run_service : List Turn → List ℕ
run_service turns = supervise initial_backoff turns
