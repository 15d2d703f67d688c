-- ===== src/Time.antt =====
-- Go's `time` as the program uses it, and formatTime of backend/internal/store/store.go.
use helboot.Prelude.{ℕ, ◌*◌, ◌/◌, Bool, ltb}

-- An instant, and a duration, in nanoseconds.
abbrev pub Time : Type 0
Time = ℕ

abbrev pub second : ℕ
second = 1_000_000_000

abbrev pub minute : ℕ
minute = 60 * second

-- t.After(u)
abbrev pub after : Time → Time → Bool
after t u = ltb u t

-- t.Before(u)
abbrev pub before : Time → Time → Bool
before t u = ltb t u

-- The layout "2006-01-02 15:04:05" keeps whole seconds; its texts compare as the instants do.
unfoldable pub format_time : Time → Time
format_time t = t / second * second
