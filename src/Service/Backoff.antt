-- ===== src/Service/Backoff.antt =====
-- How long the supervisor of backend/internal/service/manager.go waits.
use helboot.Prelude.{
  ℕ, zero, suc, ◌*◌, ◌≤◌, min, ◌≡◌, refl, ap, ◌∙◌, List, [], ◌∷◌, map, arith, All,
}
use helboot.Time.{second, minute}
use helboot.Service.{
  Turn, ended, crashed, crashed_then_cancelled, initial_backoff, max_backoff, wait_after, supervise,
  run_service,
}

abbrev pub InBounds : ℕ → Type 0
InBounds w = (initial_backoff ≤ w) × (w ≤ max_backoff)

wait_after-InBounds : (b ran : ℕ) → InBounds b → InBounds (wait_after b ran)
unfolding wait_after
wait_after-InBounds b ran v = ground arith

supervise-InBounds : (b : ℕ) (turns : List Turn) → InBounds b → All InBounds (supervise b turns)
unfolding supervise
supervise-InBounds b [] v = tt
supervise-InBounds b (ended ∷ turns) v = tt
supervise-InBounds b (crashed_then_cancelled ran ∷ turns) v = (wait_after-InBounds b ran v, tt)
supervise-InBounds b (crashed ran ∷ turns) v =
    let w = wait_after-InBounds b ran v in
    (w, supervise-InBounds (min (wait_after b ran * 2) max_backoff) turns (omega arith))

-- Whatever a service does, each wait before a restart is between 1 and 30 seconds.
pub run_service-InBounds : (turns : List Turn) → All InBounds (run_service turns)
unfolding run_service
run_service-InBounds turns = supervise-InBounds initial_backoff turns (omega arith)

-- One second, doubled n times.
unfoldable pub doubled : ℕ → ℕ
doubled zero = second
doubled (suc n) = 2 * doubled n

-- The waits after the n-th crash in a row, and those after it, one for each run.
unfoldable pub expected : ℕ → List ℕ → List ℕ
expected n [] = []
expected n (ran ∷ runs) = min (doubled n) max_backoff ∷ expected (suc n) runs

supervise_rapid :
    (n : ℕ) (runs : List ℕ)
    → All (λ ran. ran ≤ minute) runs
    → supervise (min (doubled n) max_backoff) (map {A = ℕ} {B = Turn} crashed runs)
      ≡ expected n runs
unfolding supervise expected doubled
supervise_rapid n [] v = refl
supervise_rapid n (ran ∷ runs) v =
    let wait : wait_after (min (doubled n) max_backoff) ran ≡ min (doubled n) max_backoff =
      rapid (min (doubled n) max_backoff) ran v.0 in
    let twice : min (wait_after (min (doubled n) max_backoff) ran * 2) max_backoff
        ≡ min (2 * doubled n) max_backoff =
      omega (arith, wait) in
    ap
      (λ w.
        w
        ∷ supervise (min (wait_after (min (doubled n) max_backoff) ran * 2) max_backoff)
            (map {A = ℕ} {B = Turn} crashed runs))
      wait
    ∙ ap (λ b. min (doubled n) max_backoff ∷ supervise b (map {A = ℕ} {B = Turn} crashed runs))
        twice
    ∙ ap (λ ws. min (doubled n) max_backoff ∷ ws) (supervise_rapid (suc n) runs v.1)
  where
    rapid : (b ran : ℕ) → ran ≤ minute → wait_after b ran ≡ b
    rapid b r le = ground arith

-- A service that keeps crashing, each time within a minute, is restarted after one second, then
-- two, and so on, doubled each time up to 30 seconds.
pub run_service_doubles :
    (runs : List ℕ)
    → All (λ ran. ran ≤ minute) runs
    → run_service (map {A = ℕ} {B = Turn} crashed runs) ≡ expected 0 runs
unfolding run_service doubled
run_service_doubles runs v = supervise_rapid 0 runs v
