-- ===== src/Api/Profiles/Keeping.antt =====
-- The configuration of an installation's version under the parts of the handlers of
-- backend/internal/api/handlers_profiles.go and handlers_profiles_answer.go.
use helboot.Prelude.{
  List, [], ◌∷◌, ℕ, String, ◌≡◌, refl, Bool, true, false, not, Option, none, some, ℕ_eq, String_eq,
}
use helboot.Time.{Time}
use helboot.Model.{User, Profile}
use helboot.Store.Db.{Db, Result, ok, err, version_in_use}
use helboot.Store.Users.{add_audit}
use helboot.Store.Profiles.{
  profile_by_id, create_profile, update_profile, delete_profile, set_answer_override,
}
use helboot.Store.Profiles.Pinned.{
  Pinned, same-Pinned, create_profile-Pinned, update_profile-Pinned, delete_profile-Pinned,
  set_answer_override-Pinned,
}
use helboot.Provider.Value.{Doc}
use helboot.Provider.Schema.{validate_config, Problem}
use helboot.Provider.Manifest.{Manifest}
use helboot.Api.Respond.{Response, Handled, internal_error, audit}
use helboot.Api.Respond.Keeps.{unless-keeps, on_ok-keeps}
use helboot.Answer.{Rendered, rendered, render_error, panicked}
use helboot.Api.Profiles.{
  check_override, CreateProfileRequest, unless_problems, checked, profile_created,
  valid_profile_config, config_or_empty, create_with, profile_updated, check_update,
  profile_deleted, override_set,
}

module _ (id : ℕ) (config : String) where
  audit-Pinned :
      (db : Db) (u : User) (action entity : String) (k : ℕ)
      → Pinned id config db
      → Pinned id config (audit db (some u) action entity k)
  unfolding audit add_audit
  audit-Pinned db u action entity k v =
      same-Pinned id config db (audit db (some u) action entity k) refl refl refl v

  pub profile_created-Pinned :
      (db : Db) (caller : User) (action : String) (failure : Response Profile)
      (name provider c : String) (iso_id : Option ℕ) (now : Time) (r : Result (Profile × Db))
      → create_profile db name provider iso_id c now ≡ r
      → Pinned id config db
      → Pinned id config (profile_created db caller action failure r).1
  unfolding profile_created
  profile_created-Pinned db caller action failure name provider c iso_id now (err e) h v = v
  profile_created-Pinned db caller action failure name provider c iso_id now (ok (p, db')) h v =
      audit-Pinned db' caller action "profile" p.id
        (create_profile-Pinned id config db db' name provider c iso_id now p h v)

  unless_problems-Pinned :
      (ps : Option (List Problem)) (db : Db) (k : Handled Profile)
      → Pinned id config db
      → Pinned id config k.1
      → Pinned id config (unless_problems ps db k).1
  unfolding unless_problems
  unless_problems-Pinned none db k v h = v
  unless_problems-Pinned (some []) db k v h = h
  unless_problems-Pinned (some (p ∷ ps)) db k v h = v

  checked-Pinned :
      (m : Manifest) (doc : Option Doc) (db : Db) (k : Handled Profile)
      → Pinned id config db
      → Pinned id config k.1
      → Pinned id config (checked m doc db k).1
  unfolding checked
  checked-Pinned m none db k v h = v
  checked-Pinned m (some doc) db k v h =
      unless_problems-Pinned (validate_config m.settings_schema doc) db k v h

  pub profile_updated-Pinned :
      (db : Db) (caller : User) (k : ℕ) (name : String) (iso_id : Option ℕ) (c : Option String)
      (new_version : Bool) (now : Time) (r : Result Db)
      → update_profile db k name iso_id c new_version now ≡ r
      → Pinned id config db
      → Pinned id config (profile_updated db caller k new_version r).1
  unfolding profile_updated
  profile_updated-Pinned db caller k name iso_id c new_version now (err version_in_use) h v = v
  profile_updated-Pinned db caller k name iso_id c true now (ok db') h v =
      let v' = update_profile-Pinned id config db db' k name iso_id c true now h v in
      on_ok-keeps (Pinned id config) db' v' (profile_by_id db' k) _ _
        (λ p e. audit-Pinned db' caller "profile.new_version" "profile" k v')
  profile_updated-Pinned db caller k name iso_id c false now (ok db') h v =
      let v' = update_profile-Pinned id config db db' k name iso_id c false now h v in
      on_ok-keeps (Pinned id config) db' v' (profile_by_id db' k) _ _ (λ p e. v')
  profile_updated-Pinned db caller k name iso_id c new_version now (err e) h v = v

  pub profile_deleted-Pinned :
      (db : Db) (caller : User) (k : ℕ) (r : Result Db)
      → delete_profile db k ≡ r
      → Pinned id config db
      → Pinned id config (profile_deleted db caller k r).1
  unfolding profile_deleted
  profile_deleted-Pinned db caller k (err e) h v = v
  profile_deleted-Pinned db caller k (ok db') h v =
      audit-Pinned db' caller "profile.delete" "profile" k
        (delete_profile-Pinned id config db db' k h v)

  pub override_set-Pinned :
      (db : Db) (caller : User) (k n : ℕ) (content : String) (r : Result Db)
      → set_answer_override db k n content ≡ r
      → Pinned id config db
      → Pinned id config (override_set db caller k content r).1
  unfolding override_set
  override_set-Pinned db caller k n content (err e) h v = v
  override_set-Pinned db caller k n content (ok db') h v =
      audit-Pinned db' caller _ "profile" k
        (set_answer_override-Pinned id config db db' k n content h v)

  pub check_override-Pinned :
      (db : Db) (empty : Bool) (r : Rendered) (k : Handled Unit)
      → Pinned id config db
      → Pinned id config k.1
      → Pinned id config (check_override empty r db k).1
  unfolding check_override
  check_override-Pinned db true r k v h = h
  check_override-Pinned db false (rendered out) k v h = h
  check_override-Pinned db false (render_error e) k v h = v
  check_override-Pinned db false panicked k v h = v

  module _ (json_object : String → Option Doc) (json_valid : String → Bool) where
    valid_profile_config-Pinned :
        (m : Manifest) (c : Option String) (db : Db) (k : Handled Profile)
        → Pinned id config db
        → Pinned id config k.1
        → Pinned id config (valid_profile_config json_object m c db k).1
    unfolding valid_profile_config
    valid_profile_config-Pinned m none db k v h = h
    valid_profile_config-Pinned m (some raw) db k v h = checked-Pinned m (json_object raw) db k v h

    pub create_with-Pinned :
        (db : Db) (caller : User) (req : CreateProfileRequest) (now : Time) (m : Option Manifest)
        → Pinned id config db
        → Pinned id config (create_with json_object db caller req now m).1
    unfolding create_with
    create_with-Pinned db caller req now none v = v
    create_with-Pinned db caller req now (some m) v =
        valid_profile_config-Pinned m req.config db _ v (
          profile_created-Pinned db caller "profile.create" internal_error req.name req.provider
            (config_or_empty req.config) req.iso_id now _ refl v)

    pub check_update-Pinned :
        (m : Option Manifest) (c : Option String) (db : Db) (k : Handled Profile)
        → Pinned id config db
        → Pinned id config k.1
        → Pinned id config (check_update json_object json_valid m c db k).1
    unfolding check_update
    check_update-Pinned m none db k v h = h
    check_update-Pinned (some m) (some raw) db k v h =
        valid_profile_config-Pinned m (some raw) db k v h
    check_update-Pinned none (some raw) db k v h =
        unless-keeps (Pinned id config) db v (not (json_valid raw)) 400 "profile.invalid_config" k
          (λ _. h)
