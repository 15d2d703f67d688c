-- ===== src/Api/Respond.antt =====
-- Responses and their errors: backend/internal/api/respond.go, and pathID of handlers_hosts.go.
pub mod Keeps
use helboot.Prelude.{ℕ, String, Bool, Option, none, some, ltb, if◌then◌else◌}
use helboot.Model.{User}
use helboot.Store.Db.{Db, Result, ok, err, StoreError, not_found, id_text}
use helboot.Store.Users.{add_audit}

-- A status with a body, or with the code of an error envelope (writeJSON, writeError).
pub data Response {ℓ} (A : Type ℓ) : Type ℓ where
  done : ℕ → A → Response A
  failed : ℕ → String → Response A

-- Every handler is of this form: its state is the database.
abbrev pub Handled : Type 0 → Type 0
Handled A = Response A × Db

abbrev pub internal_error {ℓ} : {A : Type ℓ} → Response A
internal_error = failed 500 "internal"

abbrev pub store_error {ℓ} : {A : Type ℓ} → StoreError → Response A
store_error not_found = failed 404 "not_found"
store_error _ = internal_error

-- decodeJSON refuses what is no document of the request's shape.
abbrev pub decode_json : {A B : Type 0} → Option A → Db → (A → Handled B) → Handled B
decode_json none db k = (failed 400 "validation.invalid_json", db)
decode_json (some req) db k = k req

-- `none` is a segment that ParseInt refuses, or that spells a negative number.
abbrev pub path_id : {B : Type 0} → Option ℕ → Db → (ℕ → Handled B) → Handled B
path_id none db k = (failed 400 "validation.invalid_id", db)
path_id (some id) db k = if ltb id 1 then (failed 400 "validation.invalid_id", db) else k id

-- `if err != nil { …; return }` after a call of the store.
abbrev pub on_ok :
    {A B : Type 0} → Result A → (StoreError → Response B) → Db → (A → Handled B) → Handled B
on_ok (ok a) fail db k = k a
on_ok (err e) fail db k = (fail e, db)

-- A guard that ends the handler with an error.
abbrev pub unless : {B : Type 0} → Bool → ℕ → String → Db → Handled B → Handled B
unless test status code db k = if test then (failed status code, db) else k

-- Server.audit of handlers_users.go: the user of the context, if any.
unfoldable pub audit : Db → Option User → String → String → ℕ → Db
unfolding add_audit
audit db none action entity id = add_audit db none action entity (id_text id)
audit db (some u) action entity id = add_audit db (some u.id) action entity (id_text id)
