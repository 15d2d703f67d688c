-- ===== src/Api/Setup/Once.antt =====
-- The wizard completes once: backend/internal/api/handlers_setup.go.
use helboot.Prelude.{
  ℕ, ◌+◌, ◌≤◌, String, ◌≡◌, refl, Bool, true, false, List, [], ◌∷◌, Option, none, some, arith, ltb,
  String_eq, byte_len,
}
use helboot.Time.{Time}
use helboot.Model.{admin, User}
use helboot.Store.Db.{Db, Result, ok, err}
use helboot.Store.Users.{create_user, count_admins}
use helboot.Store.Settings.{
  find_setting, write_setting, get_setting, set_setting, setup_completed, setting_ui_language,
  setting_network_mode, setting_setup_completed,
}
use helboot.Api.Respond.{done, failed, Handled, unless}
use helboot.Api.Setup.{SetupRequest, write_settings, admin_created, hashed, handle_setup_complete}

find_setting-write_setting :
    (key value : String) (rows : List (String × String))
    → find_setting key (write_setting key value rows) ≡ some value
unfolding find_setting write_setting
find_setting-write_setting key value [] =
    let same = (String_eq.equals_iff key key).1 refl in ground arith
find_setting-write_setting key value ((k, v) ∷ rows) =
    let same = (String_eq.equals_iff key key).1 refl in
    ground (arith, find_setting-write_setting key value rows)

pub setup_completed-set_setting :
    (db : Db) → setup_completed (set_setting db setting_setup_completed "true") ≡ true
unfolding setup_completed get_setting set_setting
setup_completed-set_setting db =
    let h = find_setting-write_setting setting_setup_completed "true" db.settings in
    rw (setup_completed, h) refl

unless-done :
    {B : Type 0} (test : Bool) (status : ℕ) (code : String) (db db' : Db) (k : Handled B) (s : ℕ)
    (b : B)
    → unless test status code db k ≡ (done s b, db')
    → (test ≡ false) × (k ≡ (done s b, db'))
unless-done true status code db db' k s b h = absurd (ground arith)
unless-done false status code db db' k s b h = (refl, h)

not_below : (a b : ℕ) → ltb a b ≡ false → b ≤ a
not_below a b h = ground arith

-- A request that completes the wizard: what it saw, and what it left.
pub record Completed (db : Db) (db' : Db) : Type 0 where
  pub closed_after : setup_completed db' ≡ true
  pub admins : count_admins db' ≡ count_admins db + 1
  pub installations : db'.installations ≡ db.installations

written :
    (db db2 db' : Db) (req : SetupRequest) (s : ℕ) (u : User)
    → admin_created db req (ok (u, db2)) ≡ (done s tt, db')
    → (s ≡ 201) × (db' ≡ write_settings db2 req)
unfolding admin_created
written db db2 db' req s u h = ground arith

admin_row :
    (db db' : Db) (req : SetupRequest) (now : Time) (s : ℕ) (r : Result (User × Db)) (hash : String)
    → create_user db req.username hash admin req.language now ≡ r
    → admin_created db req r ≡ (done s tt, db')
    → (s ≡ 201) × Completed db db'
unfolding admin_created create_user count_admins write_settings set_setting
admin_row db db' req now s (err e) hash made h = absurd (ground arith)
admin_row db db' req now s (ok (u, db2)) hash made h =
    let (status, same) = written db db2 db' req s u h in
    (
      status,
      record {
        closed_after = rw same (
            setup_completed-set_setting (
              set_setting (set_setting db2 setting_ui_language req.language) setting_network_mode
                req.network_mode));
        admins = rw same (ground arith);
        installations = rw same (ground arith);
      },
    )

hashed_row :
    (db db' : Db) (req : SetupRequest) (now : Time) (s : ℕ) (hash : Option String)
    → hashed db req now hash ≡ (done s tt, db')
    → (s ≡ 201) × Completed db db'
unfolding hashed
hashed_row db db' req now s none h = absurd (ground arith)
hashed_row db db' req now s (some hash) h = admin_row db db' req now s _ hash refl h

-- A request that the wizard accepts is answered by 201, came before the wizard was completed, had
-- a name of 3 bytes and a password of 10 at least, adds one administrator and marks the wizard as
-- completed; from then on, every further request is answered by 409 and changes nothing.
pub handle_setup_complete-Completed :
    (hash_password : String → Option String) (db db' : Db) (req : SetupRequest) (now : Time) (s : ℕ)
    → handle_setup_complete hash_password db (some req) now ≡ (done s tt, db')
    → (s ≡ 201)
      × (setup_completed db ≡ false)
      × (3 ≤ byte_len req.username)
      × (10 ≤ byte_len req.password)
      × Completed db db'
      × ((again : Option SetupRequest) (later : Time)
          → handle_setup_complete hash_password db' again later
            ≡ (failed 409 "setup.already_completed", db'))
unfolding handle_setup_complete
handle_setup_complete-Completed hash_password db db' req now s h =
    let (fresh, h1) =
      unless-done (setup_completed db) 409 "setup.already_completed" db db' _ s tt h in
    let (language, h2) = unless-done _ 400 "setup.invalid_language" db db' _ s tt h1 in
    let (name, h3) =
      unless-done (ltb (byte_len req.username) 3) 400 "setup.invalid_username" db db' _ s tt h2 in
    let (password, h4) =
      unless-done (ltb (byte_len req.password) 10) 400 "setup.weak_password" db db' _ s tt h3 in
    let (mode, h5) = unless-done _ 400 "setup.invalid_network_mode" db db' _ s tt h4 in
    let (status, v) = hashed_row db db' req now s (hash_password req.password) h5 in
    (
      status,
      fresh,
      not_below (byte_len req.username) 3 name,
      not_below (byte_len req.password) 10 password,
      v,
      λ again later. rw (handle_setup_complete, v.closed_after) refl,
    )
