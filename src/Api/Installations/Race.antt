-- ===== src/Api/Installations/Race.antt =====
-- Two requests served at once: handleCreateInstallation of
-- backend/internal/api/handlers_installations.go checks and inserts in two statements.
use helboot.Prelude.{ℕ, ◌+◌, String, ◌≡◌, refl, Option, none, some, arith, inl, inr, ℕ_eq, ◌∙◌}
use helboot.Time.{Time}
use helboot.Model.{User, Host, Profile, ProfileVersion, Installation}
use helboot.Store.Db.{Db, ok, err, not_found, count_if, Result-cases}
use helboot.Store.Users.{add_audit}
use helboot.Store.Installations.{is_active, create_installation, active_installation_for_host}
use helboot.Store.Installations.Active.{active_of, active_none}
use helboot.Api.Respond.{done, audit}
use helboot.Api.Installations.{CreateRequest, queue_for, insert_installation}
use helboot.Api.Installations.Creation.{queued_row}

create_installation_count :
    (db db' : Db) (host_id version_id : ℕ) (token : String) (now : Time) (i : Installation)
    → create_installation db host_id version_id token now ≡ ok (i, db')
    → count_if (active_of host_id) db'.installations
      ≡ count_if (active_of host_id) db.installations + 1
unfolding create_installation is_active
create_installation_count db db' host_id version_id token now i h =
    let same = (ℕ_eq.equals_iff host_id host_id).1 refl in ground arith

audit_count :
    (db : Db) (u : User) (action entity : String) (id host : ℕ)
    → count_if (active_of host) (audit db (some u) action entity id).installations
      ≡ count_if (active_of host) db.installations
unfolding audit add_audit
audit_count db u action entity id host = refl

inserted_count :
    (db db' : Db) (caller : User) (host : Host) (version : ProfileVersion) (token : Option String)
    (now : Time) (s : ℕ) (i : Installation)
    → insert_installation db caller host version token now ≡ (done s i, db')
    → count_if (active_of host.id) db'.installations
      ≡ count_if (active_of host.id) db.installations + 1
unfolding insert_installation
inserted_count db db' caller host version none now s i h = absurd (ground arith)
inserted_count db db' caller host version (some token) now s i h =
    elim (Result-cases (create_installation db host.id version.id token now)) [
      | inl (e, g) ↦ absurd (ground arith)
      | inr ((row, db2), g) ↦
          let one_more = create_installation_count db db2 host.id version.id token now row g in
          let same = audit_count db2 caller "installation.create" "installation" row.id host.id in
          let db_is : db' ≡ audit db2 (some caller) "installation.create" "installation" row.id =
            ground arith in
          rw db_is (same ∙ one_more)
    ]

-- Where two requests for a host without an active installation both make the check before either
-- inserts, and both are answered with an installation, the host then has two active installations.
pub both_queued :
    (db db1 db2 : Db) (first_caller second_caller : User) (r1 r2 : CreateRequest) (host : Host)
    (p1 p2 : Profile) (t1 t2 : Option String) (now later : Time) (s1 s2 : ℕ) (i1 i2 : Installation)
    → active_installation_for_host db host.id ≡ err not_found
    → queue_for db first_caller r1 host p1 t1 now (active_installation_for_host db host.id)
      ≡ (done s1 i1, db1)
    → queue_for db1 second_caller r2 host p2 t2 later (active_installation_for_host db host.id)
      ≡ (done s2 i2, db2)
    → count_if (active_of host.id) db2.installations ≡ 2
both_queued db db1 db2 first_caller second_caller r1 r2 host p1 p2 t1 t2 now later s1 s2 i1 i2 free
      h1 h2 =
    let (_, v1, _, g1) = queued_row db db1 first_caller r1 host p1 t1 now s1 i1 _ h1 in
    let (_, v2, _, g2) = queued_row db1 db2 second_caller r2 host p2 t2 later s2 i2 _ h2 in
    let none_yet = active_none db host.id free in
    let one = inserted_count db db1 first_caller host v1 t1 now s1 i1 g1 in
    let two = inserted_count db1 db2 second_caller host v2 t2 later s2 i2 g2 in
    omega (arith, none_yet, one, two)
