-- ===== src/Store/Sessions.antt =====
-- The table sessions: backend/internal/store/sessions.go.
use helboot.Prelude.{
  String, not, ◌||◌, ◌∷◌, ◌==◌, ℕ_eq, String_eq, if◌then◌else◌, first, keep, none, some, ltb,
}
use helboot.Time.{Time, before, format_time}
use helboot.Model.{Session}
use helboot.Store.Db.{Db, Result, ok, err, not_found, constraint, exists}

-- PRIMARY KEY (token), REFERENCES users (user_id).
unfoldable pub create_session : Db → Session → Result Db
create_session db s =
    if exists (λ t. t.token == s.token) db.sessions
      || not (exists (λ u. u.id == s.user_id) db.users)
    then err constraint
    else ok (record db {
      sessions =
          record s { created_at = format_time s.created_at; expires_at = format_time s.expires_at }
          ∷ db.sessions;
    })

unfoldable pub session_by_token : Db → String → Time → Result Session
session_by_token db token now = elim (first (λ s. s.token == token) db.sessions) [
  | none ↦ err not_found
  | some s ↦ if not (before now s.expires_at) then err not_found else ok s
]

unfoldable pub delete_session : Db → String → Db
delete_session db token = record db { sessions = keep (λ s. not (s.token == token)) db.sessions }

-- WHERE expires_at <= now
unfoldable pub delete_expired_sessions : Db → Time → Db
delete_expired_sessions db now = record db {
  sessions = keep (λ s. ltb (format_time now) s.expires_at) db.sessions;
}
