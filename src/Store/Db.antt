-- ===== src/Store/Db.antt =====
-- The database of backend/internal/store, its errors, and the constraints of
-- backend/internal/db/migrations (foreign keys are on, see backend/internal/db/db.go).
-- A table holds its rows with the newest first, which is the order of `ORDER BY id DESC`. A statement
-- fails by its constraints alone: failures of the disk are not modelled.
pub mod Counting
use helboot.Prelude.{
  ℕ, ◌+◌, String, Bool, false, ◌||◌, List, [], ◌∷◌, Option, none, some, if◌then◌else◌, ◌≡◌, refl,
  ◌⊎◌, inl, inr,
}
use helboot.Time.{Time}
use helboot.Model.{User, Session, Host, Profile, ProfileVersion, Installation, IsoImage}

-- ErrNotFound, ErrVersionInUse, the head version that editHeadVersion does not find, the refusal of
-- MarkInstallationFinished, and what a constraint of the schema refuses.
pub data StoreError : Type 0 where
  not_found version_in_use no_head_version invalid_final_status constraint : StoreError

pub data Result {ℓ} (A : Type ℓ) : Type ℓ where
  ok : A → Result A
  err : StoreError → Result A

-- How a result is taken apart in a proof.
pub Result-cases {ℓ} :
    {A : Type ℓ} (r : Result A) → ((e : StoreError) × r ≡ err e) ⊎ ((a : A) × r ≡ ok a)
Result-cases (ok a) = inr (a, refl)
Result-cases (err e) = inl (e, refl)

-- The text of an identifier, or a name.
pub data EntityId : Type 0 where
  id_text : ℕ → EntityId
  name_text : String → EntityId

pub record AuditEntry : Type 0 where
  pub user_id : Option ℕ
  pub action : String
  pub entity : String
  pub entity_id : EntityId

-- Each `last_` is the AUTOINCREMENT counter of a table: an identifier is never given twice.
pub record Db : Type 0 where
  pub users : List User
  pub last_user : ℕ
  pub sessions : List Session
  pub settings : List (String × String)
  pub isos : List IsoImage
  pub last_iso : ℕ
  pub profiles : List Profile
  pub last_profile : ℕ
  pub versions : List ProfileVersion
  pub last_version : ℕ
  pub hosts : List Host
  pub last_host : ℕ
  pub installations : List Installation
  pub last_installation : ℕ
  pub audit_log : List AuditEntry

-- The migrated database of a first start.
abbrev pub empty_db : Db
empty_db = record {
  users = [];
  last_user = 0;
  sessions = [];
  settings = [];
  isos = [];
  last_iso = 0;
  profiles = [];
  last_profile = 0;
  versions = [];
  last_version = 0;
  hosts = [];
  last_host = 0;
  installations = [];
  last_installation = 0;
  audit_log = [];
}

module _ {ℓ} {A : Type ℓ} where
  -- SELECT … LIMIT 1: sql.ErrNoRows is ErrNotFound.
  abbrev pub or_not_found : Option A → Result A
  or_not_found none = err not_found
  or_not_found (some a) = ok a

  -- Whether some row satisfies the condition.
  abbrev pub exists : (A → Bool) → List A → Bool
  exists p [] = false
  exists p (x ∷ xs) = p x || exists p xs

  -- SELECT COUNT(*) … WHERE
  abbrev pub count_if : (A → Bool) → List A → ℕ
  count_if p [] = 0
  count_if p (x ∷ xs) = (if p x then 1 else 0) + count_if p xs

  -- UPDATE … SET … WHERE
  abbrev pub change : (A → Bool) → (A → A) → List A → List A
  change p f [] = []
  change p f (x ∷ xs) = (if p x then f x else x) ∷ change p f xs
