-- ===== src/Store/Profiles/Pinned.antt =====
-- A version that an installation refers to, under the statements of
-- backend/internal/store/profiles.go.
use helboot.Prelude.{
  ℕ, ◌+◌, ◌≤◌, String, ◌≡◌, refl, ◌∙◌, Bool, true, false, not, ◌&&◌, Option, none, some, ◌∷◌, arith,
  ◌==◌, ℕ_eq, if◌then◌else◌, first, first_holds,
}
use helboot.Time.{Time, format_time}
use helboot.Model.{Profile, ProfileVersion, Installation}
use helboot.Store.Db.{Db, ok, exists, count_if, change}
use helboot.Store.Db.Counting.{
  count_of_first, exists_of_first, first-keep, first-change, first-change_other,
}
use helboot.Store.Profiles.{
  insert_version, create_profile, append_profile_version, head_version, edit_head_version,
  max_version, update_config, update_profile, delete_profile, set_answer_override,
}

abbrev pub version_is : ℕ → ProfileVersion → Bool
version_is id v = v.id == id

abbrev pub refers_to : ℕ → Installation → Bool
refers_to id i = i.profile_version_id == id

-- The version has the configuration, and an installation refers to it.
pub record Pinned (id : ℕ) (config : String) (db : Db) : Type 0 where
  pub version : ProfileVersion
  pub found : first (version_is id) db.versions ≡ some version
  pub kept : version.config ≡ config
  pub given : id ≤ db.last_version
  pub install : Installation
  pub referenced : first (refers_to id) db.installations ≡ some install

module _ (id : ℕ) (config : String) where
  pub insert_version-Pinned :
      (db : Db) (profile_id n : ℕ) (c : String) (now : Time)
      → Pinned id config db
      → Pinned id config (insert_version db profile_id n c now)
  unfolding insert_version
  insert_version-Pinned db profile_id n c now v =
      let given = v.given in
      let found = v.found in
      record {
        version = v.version;
        found = ground arith;
        kept = v.kept;
        given = omega arith;
        install = v.install;
        referenced = v.referenced;
      }

  -- A change of other tables.
  pub same-Pinned :
      (db db' : Db)
      → db'.versions ≡ db.versions
      → db'.last_version ≡ db.last_version
      → db'.installations ≡ db.installations
      → Pinned id config db
      → Pinned id config db'
  same-Pinned db db' versions last installs v = record {
    version = v.version;
    found = rw versions v.found;
    kept = v.kept;
    given = rw last v.given;
    install = v.install;
    referenced = rw installs v.referenced;
  }

  pub append_profile_version-Pinned :
      (db : Db) (profile_id : ℕ) (c : String) (now : Time)
      → Pinned id config db
      → Pinned id config (append_profile_version db profile_id c now)
  unfolding append_profile_version
  append_profile_version-Pinned db profile_id c now v =
      let v' =
        insert_version-Pinned db profile_id (max_version profile_id db.versions + 1) c now v in
      record {
        version = v'.version;
        found = v'.found;
        kept = v'.kept;
        given = v'.given;
        install = v'.install;
        referenced = v'.referenced;
      }

  edited :
      (db : Db) (c : String) (head : ProfileVersion)
      → count_if (refers_to head.id) db.installations ≡ 0
      → Pinned id config db
      → Pinned id config (record db {
        versions = change (λ v. v.id == head.id) (λ v. record v { config = c }) db.versions;
      })
  edited db c head unused v =
      let to_head = (ℕ_eq.equals_iff v.install.profile_version_id head.id) in
      let to_id = (ℕ_eq.equals_iff v.install.profile_version_id id) in
      let hit = first_holds (refers_to id) db.installations v.install v.referenced in
      let one =
        count_of_first (refers_to head.id) (refers_to id) db.installations v.install v.referenced in
      record {
        version = v.version;
        found =
            first-change_other (version_is id) (version_is head.id) (λ v. record v { config = c })
              db.versions
              (λ y e.
                let at_head = (ℕ_eq.equals_iff y.id head.id) in
                let at_id = (ℕ_eq.equals_iff y.id id) in ground arith)
            ∙ v.found;
        kept = v.kept;
        given = v.given;
        install = v.install;
        referenced = v.referenced;
      }

  pub edit_head_version-Pinned :
      (db db' : Db) (profile_id : ℕ) (c : String)
      → edit_head_version db profile_id c ≡ ok db'
      → Pinned id config db
      → Pinned id config db'
  unfolding edit_head_version
  edit_head_version-Pinned db db' profile_id c h v = go (head_version db profile_id) refl
    where
      go : (o : Option ProfileVersion) → head_version db profile_id ≡ o → Pinned id config db'
      go none e = absurd (ground arith)
      go (some head) e =
          let unused : count_if (refers_to head.id) db.installations ≡ 0 = ground arith in
          let same : db' ≡ record db {
            versions = change (λ v. v.id == head.id) (λ v. record v { config = c }) db.versions;
          } =
            ground arith in
          rw same (edited db c head unused v)

  update_config-Pinned :
      (db db' : Db) (profile_id : ℕ) (c : Option String) (new_version : Bool) (now : Time)
      → update_config db profile_id c new_version now ≡ ok db'
      → Pinned id config db
      → Pinned id config db'
  unfolding update_config
  update_config-Pinned db db' profile_id none new_version now h v =
      let same : db' ≡ db = ground arith in rw same v
  update_config-Pinned db db' profile_id (some c) true now h v =
      let same : db' ≡ append_profile_version db profile_id c now = ground arith in
      rw same (append_profile_version-Pinned db profile_id c now v)
  update_config-Pinned db db' profile_id (some c) false now h v =
      edit_head_version-Pinned db db' profile_id c h v

  pub create_profile-Pinned :
      (db db' : Db) (name provider c : String) (iso_id : Option ℕ) (now : Time) (p : Profile)
      → create_profile db name provider iso_id c now ≡ ok (p, db')
      → Pinned id config db
      → Pinned id config db'
  unfolding create_profile
  create_profile-Pinned db db' name provider c iso_id now p h v =
      let base = record db { profiles = p ∷ db.profiles; last_profile = db.last_profile + 1 } in
      let same : db' ≡ insert_version base (db.last_profile + 1) 1 c now = ground arith in
      rw same (
        insert_version-Pinned base (db.last_profile + 1) 1 c now
          (same-Pinned db base refl refl refl v))

  pub update_profile-Pinned :
      (db db' : Db) (profile_id : ℕ) (name : String) (iso_id : Option ℕ) (c : Option String)
      (new_version : Bool) (now : Time)
      → update_profile db profile_id name iso_id c new_version now ≡ ok db'
      → Pinned id config db
      → Pinned id config db'
  unfolding update_profile
  update_profile-Pinned db db' profile_id name iso_id c new_version now h v =
      let base = record db {
        profiles =
            change (λ p. p.id == profile_id)
              (λ p. record p { name = name; iso_id = iso_id; updated_at = format_time now })
              db.profiles;
      } in
      let step : update_config base profile_id c new_version now ≡ ok db' = ground arith in
      update_config-Pinned base db' profile_id c new_version now step
        (same-Pinned db base refl refl refl v)

  pub delete_profile-Pinned :
      (db db' : Db) (profile_id : ℕ)
      → delete_profile db profile_id ≡ ok db'
      → Pinned id config db
      → Pinned id config db'
  unfolding delete_profile
  delete_profile-Pinned db db' profile_id h v =
      let used =
        exists_of_first
          (λ (i : Installation).
            exists
              (λ (x : ProfileVersion). x.id == i.profile_version_id && x.profile_id == profile_id)
              db.versions)
          (refers_to id) db.installations v.install v.referenced in
      let mine =
        exists_of_first
          (λ (x : ProfileVersion).
            x.id == v.install.profile_version_id && x.profile_id == profile_id)
          (version_is id) db.versions v.version v.found in
      let to_id = (ℕ_eq.equals_iff v.install.profile_version_id id) in
      let at_id = (ℕ_eq.equals_iff v.version.id id) in
      let both = (ℕ_eq.equals_iff v.version.id v.install.profile_version_id) in
      let hit = first_holds (refers_to id) db.installations v.install v.referenced in
      let hit' = first_holds (version_is id) db.versions v.version v.found in
      let stays =
        first-keep (version_is id) (λ x. not (x.profile_id == profile_id)) db.versions v.version
          v.found in
      let found : first (version_is id) db'.versions ≡ some v.version = ground arith in
      record {
        version = v.version;
        found = found;
        kept = v.kept;
        given = let given = v.given in ground arith;
        install = v.install;
        referenced = let referenced = v.referenced in ground arith;
      }

  pub set_answer_override-Pinned :
      (db db' : Db) (profile_id n : ℕ) (content : String)
      → set_answer_override db profile_id n content ≡ ok db'
      → Pinned id config db
      → Pinned id config db'
  unfolding set_answer_override
  set_answer_override-Pinned db db' profile_id n content h v =
      let p : ProfileVersion → Bool = λ x. x.profile_id == profile_id && x.version == n in
      let f : ProfileVersion → ProfileVersion = λ x. record x { answer_override = content } in
      let moved = first-change (version_is id) p f db.versions v.version (λ y. refl) v.found in
      let rows : db'.versions ≡ change p f db.versions = ground arith in
      record {
        version = if p v.version then f v.version else v.version;
        found = rw rows moved;
        kept = let kept = v.kept in ground arith;
        given = let given = v.given in ground arith;
        install = v.install;
        referenced = let referenced = v.referenced in ground arith;
      }
