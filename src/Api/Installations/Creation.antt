-- ===== src/Api/Installations/Creation.antt =====
-- What a created installation is: handleCreateInstallation of
-- backend/internal/api/handlers_installations.go.
use helboot.Prelude.{
  ℕ, ◌<◌, ◌≢◌, ◌⊎◌, ◌&&◌, ◌==◌, ℕ_eq, first_holds, String, ◌≡◌, refl, Option, none, some, arith,
  inl, inr, sym, ◌∙◌,
}
use helboot.Time.{Time}
use helboot.Model.{User, Host, Profile, ProfileVersion, Installation, install_waiting}
use helboot.Store.Db.{
  Db, Result, ok, err, StoreError, not_found, version_in_use, no_head_version, invalid_final_status,
  constraint, Result-cases,
}
use helboot.Store.Users.{add_audit}
use helboot.Store.Hosts.{host_by_id}
use helboot.Store.Hosts.Lookup.{find_host}
use helboot.Store.Profiles.{profile_by_id, profile_version_number}
use helboot.Store.Installations.{create_installation, active_installation_for_host}
use helboot.Store.Installations.Active.{create_installation_row}
use helboot.Api.Respond.{Response, Handled, done, failed, internal_error, on_ok, audit}
use helboot.Api.Installations.{
  is_none, CreateRequest, version_to_install, queue_for, handle_create_installation,
  insert_installation, queue_profile, or_else, unknown,
}

-- The new row is the host's only active one before and after, and installs the version asked for.
pub record Queued (db : Db) (req : CreateRequest) (status : ℕ) (i : Installation) (db' : Db)
    : Type 0 where
  pub host : Host
  pub profile_id : ℕ
  pub profile : Profile
  pub version : ProfileVersion
  pub created : status ≡ 201
  pub known_host : host_by_id db req.host_id ≡ ok host
  pub chosen_profile : or_else req.profile_id host.profile_id ≡ some profile_id
  pub known_profile : profile_by_id db profile_id ≡ ok profile
  pub known_version :
      profile_version_number db profile.id (version_to_install req host profile) ≡ ok version
  pub of_profile : version.profile_id ≡ profile.id
  -- The pinned version of the host's own profile, else the current one.
  pub wanted :
      ((req.profile_id ≡ none)
        × (0 < host.profile_version)
        × (version.version ≡ host.profile_version))
      ⊎ (((req.profile_id ≢ none) ⊎ (host.profile_version ≡ 0))
          × (version.version ≡ profile.current_version))
  pub installs : i.profile_version_id ≡ version.id
  pub of_host : i.host_id ≡ req.host_id
  pub waiting : i.status ≡ install_waiting
  pub none_before : active_installation_for_host db req.host_id ≡ err not_found
  pub active_after : active_installation_for_host db' req.host_id ≡ ok i

Fails : {A : Type 0} → (StoreError → Response A) → Type 0
Fails {A = A} fail = (e : StoreError) → (status : ℕ) × (code : String) × fail e ≡ failed status code

on_ok-done :
    {A B : Type 0} (r : Result A) (fail : StoreError → Response B) (db db' : Db) (k : A → Handled B)
    (s : ℕ) (b : B)
    → Fails fail
    → on_ok r fail db k ≡ (done s b, db')
    → (a : A) × (r ≡ ok a) × (k a ≡ (done s b, db'))
unfolding Fails
on_ok-done (ok a) fail db db' k s b never h = (a, refl, h)
on_ok-done (err e) fail db db' k s b never h =
    let (status, code, g) = never e in absurd (ground arith)

unknown-Fails : (A : Type 0) (code : String) → Fails (unknown {A = A} code)
unfolding Fails unknown
unknown-Fails A code not_found = (400, code, refl)
unknown-Fails A code version_in_use = (500, "internal", refl)
unknown-Fails A code no_head_version = (500, "internal", refl)
unknown-Fails A code invalid_final_status = (500, "internal", refl)
unknown-Fails A code constraint = (500, "internal", refl)

audit_active :
    (db : Db) (u : User) (action entity : String) (id host : ℕ)
    → active_installation_for_host (audit db (some u) action entity id) host
      ≡ active_installation_for_host db host
unfolding audit add_audit active_installation_for_host
audit_active db u action entity id host = refl

inserted_row :
    (db db' : Db) (caller : User) (host : Host) (version : ProfileVersion) (token : Option String)
    (now : Time) (s : ℕ) (i : Installation)
    → insert_installation db caller host version token now ≡ (done s i, db')
    → (s ≡ 201)
      × (i.profile_version_id ≡ version.id)
      × (i.host_id ≡ host.id)
      × (i.status ≡ install_waiting)
      × (active_installation_for_host db' host.id ≡ ok i)
unfolding insert_installation
inserted_row db db' caller host version none now s i h = absurd (ground arith)
inserted_row db db' caller host version (some token) now s i h =
    elim (Result-cases (create_installation db host.id version.id token now)) [
      | inl (e, g) ↦ absurd (ground arith)
      | inr ((row, db2), g) ↦
          let facts = create_installation_row db db2 host.id version.id token now row g in
          let same = audit_active db2 caller "installation.create" "installation" row.id host.id in
          ground arith
    ]

-- The part of the handler from the check for an active installation on.
pub queued_row :
    (db db' : Db) (caller : User) (req : CreateRequest) (host : Host) (profile : Profile)
    (token : Option String) (now : Time) (s : ℕ) (i : Installation) (r : Result Installation)
    → queue_for db caller req host profile token now r ≡ (done s i, db')
    → (r ≡ err not_found)
      × (version : ProfileVersion) × (profile_version_number db profile.id
            (version_to_install req host profile)
          ≡ ok version)
      × (insert_installation db caller host version token now ≡ (done s i, db'))
unfolding queue_for Fails
queued_row db db' caller req host profile token now s i (ok active) h = absurd (ground arith)
queued_row db db' caller req host profile token now s i (err not_found) h =
    let (version, found, rest) =
      on_ok-done (profile_version_number db profile.id (version_to_install req host profile))
        (λ _. internal_error) db db'
        (λ version. insert_installation db caller host version token now) s i
        (λ e. (500, "internal", refl)) h in
    (refl, version, found, rest)
queued_row db db' caller req host profile token now s i (err version_in_use) h =
    absurd (ground arith)
queued_row db db' caller req host profile token now s i (err no_head_version) h =
    absurd (ground arith)
queued_row db db' caller req host profile token now s i (err invalid_final_status) h =
    absurd (ground arith)
queued_row db db' caller req host profile token now s i (err constraint) h = absurd (ground arith)

profile_row :
    (db db' : Db) (caller : User) (req : CreateRequest) (host : Host) (token : Option String)
    (now : Time) (s : ℕ) (i : Installation) (chosen : Option ℕ)
    → queue_profile db caller req host token now chosen ≡ (done s i, db')
    → (id : ℕ) × (chosen ≡ some id)
      × (profile : Profile) × (profile_by_id db id ≡ ok profile)
      × (queue_for db caller req host profile token now (active_installation_for_host db host.id)
          ≡ (done s i, db'))
unfolding queue_profile
profile_row db db' caller req host token now s i none h = absurd (ground arith)
profile_row db db' caller req host token now s i (some id) h =
    let (profile, found, rest) =
      on_ok-done (profile_by_id db id) (unknown "installation.unknown_profile") db db'
        (λ profile.
          queue_for db caller req host profile token now (active_installation_for_host db host.id))
        s i (unknown-Fails Installation "installation.unknown_profile") h in
    (id, refl, profile, found, rest)

wanted_version :
    (db : Db) (req : CreateRequest) (host : Host) (profile : Profile) (version : ProfileVersion)
    → profile_version_number db profile.id (version_to_install req host profile) ≡ ok version
    → (version.profile_id ≡ profile.id)
      × (((req.profile_id ≡ none)
            × (0 < host.profile_version)
            × (version.version ≡ host.profile_version))
          ⊎ (((req.profile_id ≢ none) ⊎ (host.profile_version ≡ 0))
              × (version.version ≡ profile.current_version)))
unfolding profile_version_number version_to_install is_none
wanted_version db req host profile version h =
    let n = version_to_install req host profile in
    let hit =
      first_holds (λ (v : ProfileVersion). v.profile_id == profile.id && v.version == n) db.versions
        version in
    let a = (ℕ_eq.equals_iff version.profile_id profile.id).0 in
    let b = (ℕ_eq.equals_iff version.version n).0 in ground arith

-- Where a request to install is answered with an installation, the status is 201, the request's
-- host and its chosen profile (the request's, else the host's) exist, the host had no active
-- installation and now has the returned one, which waits and installs the host's pinned version of
-- its own profile, or the current version where the request names the profile or none is pinned.
pub handle_create_installation-Queued :
    (db db' : Db) (caller : User) (req : CreateRequest) (token : Option String) (now : Time) (s : ℕ)
    (i : Installation)
    → handle_create_installation db caller (some req) token now ≡ (done s i, db')
    → Queued db req s i db'
unfolding handle_create_installation
handle_create_installation-Queued db db' caller req token now s i h =
    let (host, known_host, h1) =
      on_ok-done (host_by_id db req.host_id) (unknown "installation.unknown_host") db db'
        (λ host.
          queue_profile db caller req host token now (or_else req.profile_id host.profile_id))
        s i (unknown-Fails Installation "installation.unknown_host") h in
    let (id, chosen, profile, known_profile, h2) =
      profile_row db db' caller req host token now s i (or_else req.profile_id host.profile_id)
        h1 in
    let (free, version, known_version, h3) =
      queued_row db db' caller req host profile token now s i
        (active_installation_for_host db host.id) h2 in
    let (created, installs, of_host, waiting, active) =
      inserted_row db db' caller host version token now s i h3 in
    let same = find_host db req.host_id host known_host in
    let (of_profile, wanted) = wanted_version db req host profile version known_version in
    record {
      host = host;
      profile_id = id;
      profile = profile;
      version = version;
      created = created;
      known_host = known_host;
      chosen_profile = chosen;
      known_profile = known_profile;
      known_version = known_version;
      of_profile = of_profile;
      wanted = wanted;
      installs = installs;
      of_host = of_host ∙ same;
      waiting = waiting;
      none_before = rw (sym same) free;
      active_after = rw (sym same) active;
    }
