-- ===== src/Logging.antt =====
-- The buffer of recent log entries: backend/internal/logging/ring.go, and parseLevel of
-- backend/internal/logging/logging.go.
pub mod Slots
pub mod Recent
mod Examples
use helboot.Prelude.{
  ℕ, zero, suc, ◌+◌, ◌-◌, ◌%◌, String, Bool, true, false, ◌&&◌, ◌||◌, List, [], ◌∷◌, ltb, leb, ◌==◌,
  ℕ_eq, if◌then◌else◌, lower_is,
}
use helboot.Time.{Time}

-- The level as text; the attributes are left out.
pub record Entry : Type 0 where
  pub time : Time
  pub level : String
  pub message : String

-- The slice is a function on the indices below its length.
pub record Ring : Type 0 where
  pub size : ℕ
  pub slots : ℕ → Entry
  pub next : ℕ
  pub full : Bool

-- slog's levels, moved up by 4: debug is 0, info 4, warn 8, error 12.
unfoldable pub parse_level : String → ℕ
parse_level s =
    if lower_is s "debug"
    then 0
    else if lower_is s "warn" || lower_is s "warning"
    then 8
    else if lower_is s "error"
    then 12
    else 4

unfoldable pub new_ring : ℕ → Ring
new_ring size = record {
  size = if ltb size 1 then 1 else size;
  slots = λ _. record { time = 0; level = ""; message = "" };
  next = 0;
  full = false;
}

unfoldable pub append : Ring → Entry → Ring
append r e =
    let n = (r.next + 1) % r.size in
    record r {
      slots = λ i. if i == r.next then e else r.slots i;
      next = n;
      full = if n == 0 then true else r.full;
    }

unfoldable pub buffered : Ring → ℕ
buffered r = if r.full then r.size else r.next

-- The slot of the i-th newest entry. The sum is taken before the difference, which Go's int may
-- leave for later.
unfoldable pub slot_of : Ring → ℕ → ℕ
slot_of r i = (r.next + r.size - (i + 1)) % r.size

-- The loop of Entries from `i` on, with `left` rounds to go and `out` entries taken so far. The
-- entry is taken before the limit is tested.
unfoldable pub walk : Ring → ℕ → ℕ → ℕ → ℕ → ℕ → List Entry
unfolding parse_level slot_of
walk r min_level limit zero i out = []
walk r min_level limit (suc left) i out =
    let e = r.slots (slot_of r i) in
    let rest = walk r min_level limit left (suc i) (out + 1) in
    let skipped = walk r min_level limit left (suc i) out in
    if ltb (parse_level e.level) min_level
    then skipped
    else (e ∷ (if ltb 0 limit && leb limit (out + 1) then [] else rest))

unfoldable pub entries : Ring → ℕ → ℕ → List Entry
unfolding buffered walk
entries r min_level limit = walk r min_level limit (buffered r) 0 0
