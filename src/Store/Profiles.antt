-- ===== src/Store/Profiles.antt =====
-- The tables profiles and profile_versions: backend/internal/store/profiles.go, and the readers of
-- versions in backend/internal/store/installations.go.
pub mod Pinned
use Prim.Native.Nat.{max}
use helboot.Prelude.{
  ℕ, ◌+◌, String, Bool, true, false, not, ◌&&◌, ◌||◌, List, [], ◌∷◌, Option, none, some, map, ltb,
  ◌==◌, ℕ_eq, String_eq, if◌then◌else◌, first, keep,
}
use helboot.Time.{Time, format_time}
use helboot.Model.{Profile, ProfileVersion, Host}
use helboot.Store.Db.{
  Db, Result, ok, err, not_found, version_in_use, no_head_version, constraint, or_not_found, exists,
  count_if, change,
}

-- REFERENCES iso_images (iso_id)
iso_known : Db → Option ℕ → Bool
iso_known db none = true
iso_known db (some id) = exists (λ i. i.id == id) db.isos

unfoldable pub profile_by_id : Db → ℕ → Result Profile
profile_by_id db id = or_not_found (first (λ p. p.id == id) db.profiles)

unfoldable pub profile_version_by_id : Db → ℕ → Result ProfileVersion
profile_version_by_id db id = or_not_found (first (λ v. v.id == id) db.versions)

unfoldable pub profile_version_number : Db → ℕ → ℕ → Result ProfileVersion
profile_version_number db profile_id n =
    or_not_found (first (λ v. v.profile_id == profile_id && v.version == n) db.versions)

-- A row of profile_versions with the next identifier.
unfoldable pub insert_version : Db → ℕ → ℕ → String → Time → Db
insert_version db profile_id n config now =
    let id = db.last_version + 1 in
    let row : ProfileVersion = record {
      id = id;
      profile_id = profile_id;
      version = n;
      config = config;
      answer_override = "";
      created_at = format_time now;
    } in
    record db { versions = row ∷ db.versions; last_version = id }

-- UNIQUE (name). The profile and its first version are inserted in one transaction.
unfoldable pub create_profile :
    Db → String → String → Option ℕ → String → Time → Result (Profile × Db)
unfolding iso_known insert_version
create_profile db name provider iso_id config now =
    let id = db.last_profile + 1 in
    let row : Profile = record {
      id = id;
      name = name;
      provider = provider;
      iso_id = iso_id;
      current_version = 1;
      created_at = format_time now;
      updated_at = format_time now;
    } in
    if exists (λ p. p.name == name) db.profiles || not (iso_known db iso_id)
    then err constraint
    else ok (
      row,
      insert_version (record db { profiles = row ∷ db.profiles; last_profile = id }) id 1 config
          now,
    )

-- SELECT COALESCE(MAX(version), 0)
unfoldable pub max_version : ℕ → List ProfileVersion → ℕ
max_version profile_id [] = 0
max_version profile_id (v ∷ vs) =
    max (if v.profile_id == profile_id then v.version else 0) (max_version profile_id vs)

unfoldable pub append_profile_version : Db → ℕ → String → Time → Db
append_profile_version db profile_id config now =
    let next = max_version profile_id db.versions + 1 in
    let db' = insert_version db profile_id next config now in
    record db' {
      profiles =
          change (λ p. p.id == profile_id) (λ p. record p { current_version = next }) db'.profiles;
    }

-- The join of the version with its profile on current_version.
unfoldable pub head_version : Db → ℕ → Option ProfileVersion
head_version db profile_id =
    first
      (λ v.
        v.profile_id == profile_id
        && exists (λ p. p.id == v.profile_id && p.current_version == v.version) db.profiles)
      db.versions

unfoldable pub edit_head_version : Db → ℕ → String → Result Db
edit_head_version db profile_id config = elim (head_version db profile_id) [
  | none ↦ err no_head_version
  | some head ↦
      if ltb 0 (count_if (λ i. i.profile_version_id == head.id) db.installations)
      then err version_in_use
      else ok (record db {
        versions = change (λ v. v.id == head.id) (λ v. record v { config = config }) db.versions;
      })
]

update_config : Db → ℕ → Option String → Bool → Time → Result Db
update_config db id none new_version now = ok db
update_config db id (some config) true now = ok (append_profile_version db id config now)
update_config db id (some config) false now = edit_head_version db id config

-- An error rolls the transaction back, so the database is then the one before.
unfoldable pub update_profile : Db → ℕ → String → Option ℕ → Option String → Bool → Time → Result Db
unfolding iso_known update_config
update_profile db id name iso_id config new_version now =
    if exists (λ p. p.id == id) db.profiles
    then (if exists (λ p. p.name == name && not (p.id == id)) db.profiles
          || not (iso_known db iso_id)
        then err constraint
        else update_config
            (record db {
              profiles =
                  change (λ p. p.id == id)
                    (λ p. record p { name = name; iso_id = iso_id; updated_at = format_time now })
                    db.profiles;
            })
            id config new_version now)
    else err not_found

clear_profile : ℕ → Option ℕ → Option ℕ
clear_profile id none = none
clear_profile id (some p) = if p == id then none else some p

-- The versions go with the profile, unless an installation refers to one; hosts lose the profile.
unfoldable pub delete_profile : Db → ℕ → Result Db
unfolding clear_profile
delete_profile db id =
    if exists (λ p. p.id == id) db.profiles
    then (if exists
          (λ i. exists (λ v. v.id == i.profile_version_id && v.profile_id == id) db.versions)
          db.installations
        then err constraint
        else ok (record db {
          profiles = keep (λ p. not (p.id == id)) db.profiles;
          versions = keep (λ v. not (v.profile_id == id)) db.versions;
          hosts =
              map {A = Host} (λ h. record h { profile_id = clear_profile id h.profile_id })
                db.hosts;
        }))
    else err not_found

unfoldable pub set_answer_override : Db → ℕ → ℕ → String → Result Db
set_answer_override db profile_id n content =
    if exists (λ v. v.profile_id == profile_id && v.version == n) db.versions
    then ok (record db {
      versions =
          change (λ v. v.profile_id == profile_id && v.version == n)
            (λ v. record v { answer_override = content }) db.versions;
    })
    else err not_found
