-- ===== src/Boot/Installing.antt =====
-- A host's installation while its status changes: loadInstallContext, contextByToken and
-- markInstalling of backend/internal/boot/install.go.
use helboot.Prelude.{
  ℕ, ◌≡◌, refl, sym, ap, ◌∙◌, Bool, some, arith, ◌==◌, ℕ_eq, String_eq, ◌&&◌, ◌||◌, not, ◌⊎◌,
  if◌then◌else◌, Bool-cases, inl, inr, first_holds,
}
use helboot.Time.{Time, format_time}
use helboot.Model.{Host, Installation, install_running, installing}
use helboot.Store.Db.{Db, ok, exists}
use helboot.Store.Db.Counting.{first-change_kept, first-change_same}
use helboot.Store.Hosts.{host_by_id, update_host, firmware_valid, profile_known}
use helboot.Store.Profiles.{profile_version_by_id}
use helboot.Store.Installations.{
  is_active, is_waiting, installation_by_token, active_installation_for_host,
  mark_installation_started,
}
use helboot.Provider.Manifest.{Registry}
use helboot.Boot.Context.{
  InstallContext, loaded, load_install_context, resolved, context_by_token, with_installation,
  with_version, with_profile, with_manifest, with_iso_id, with_iso, token_context, host_context,
  context_of_loaded,
}
use helboot.Boot.Serve.{keep_host, mark_installing}
use helboot.Boot.Tokens.{loaded_installation}
use helboot.Boot.Parts.{Parts, load_install_context-Parts, Parts-same}

-- The installation goes on in a database: its token, its host's search for an active installation,
-- and what it is installed from give it, up to its status, as before.
pub record Going (db : Db) (reg : Registry) (ic : InstallContext) : Type 0 where
  pub install : Installation
  pub host : Host
  pub by_token : installation_by_token db ic.install.token ≡ ok install
  pub active : active_installation_for_host db ic.host.id ≡ ok install
  pub by_id : host_by_id db ic.host.id ≡ ok host
  pub same_host : host.id ≡ ic.host.id
  pub same_hostname : host.hostname ≡ ic.host.hostname
  pub same_mac : host.mac ≡ ic.host.mac
  pub same_install : install.id ≡ ic.install.id
  pub same_token : install.token ≡ ic.install.token
  pub of_host : install.host_id ≡ ic.host.id
  pub same_version : install.profile_version_id ≡ ic.install.profile_version_id
  pub parts : Parts db reg ic.install ic.version ic.profile ic.manifest ic.iso

started : Installation → ℕ → Time → Installation
started i id now =
    if i.id == id && is_waiting i.status
    then record i { status = install_running; started_at = some (format_time now) }
    else i

mark_installation_started-Going :
    (db : Db) (reg : Registry) (ic : InstallContext) (id : ℕ) (now : Time)
    → Going db reg ic
    → Going (mark_installation_started db id now) reg ic
unfolding mark_installation_started installation_by_token active_installation_for_host started
    is_active is_waiting host_by_id
mark_installation_started-Going db reg ic id now g =
    let p : Installation → Bool = λ i. i.id == id && is_waiting i.status in
    let f : Installation → Installation =
      λ i. record i { status = install_running; started_at = some (format_time now) } in
    let token_kept =
      first-change_kept (λ i. i.token == ic.install.token) p f db.installations g.install
        (λ y e. refl) in
    let active_kept =
      first-change_kept (λ i. i.host_id == ic.host.id && is_active i.status) p f db.installations
        g.install (λ y e. ground arith) in
    record {
      install = started g.install id now;
      host = g.host;
      by_token = let h = g.by_token in ground arith;
      active = let h = g.active in ground arith;
      by_id = g.by_id;
      same_host = g.same_host;
      same_hostname = g.same_hostname;
      same_mac = g.same_mac;
      same_install = let h = g.same_install in ground arith;
      same_token = let h = g.same_token in ground arith;
      of_host = let h = g.of_host in ground arith;
      same_version = let h = g.same_version in ground arith;
      parts =
          Parts-same db (mark_installation_started db id now) reg _ _ _ _ _ refl refl refl g.parts;
    }

keep_host-found :
    (db : Db) (h k : Host) (now : Time)
    → host_by_id db h.id ≡ ok k
    → (k' : Host) × (host_by_id (keep_host db h now) h.id ≡ ok k')
      × ((k' ≡ k) ⊎ ((k'.id ≡ h.id) × (k'.hostname ≡ h.hostname) × (k'.mac ≡ h.mac)))
unfolding keep_host update_host host_by_id
keep_host-found db h k now found =
    let row = record h { created_at = k.created_at; updated_at = format_time now } in
    let same = (ℕ_eq.equals_iff h.id h.id).1 refl in
    let written = first-change_same (λ x. x.id == h.id) (λ _. row) db.hosts k (λ y e. same) in
    elim (Bool-cases (
      exists (λ x. x.mac == h.mac && not (x.id == h.id)) db.hosts
      || not (firmware_valid h.firmware && profile_known db h.profile_id))) [
        | inl e ↦ (k, ground arith, inl refl)
        | inr e ↦ (row, ground arith, inr (refl, refl, refl))
      ]

keep_host_tables :
    (db : Db) (h : Host) (now : Time)
    → ((keep_host db h now).versions ≡ db.versions)
      × ((keep_host db h now).profiles ≡ db.profiles)
      × ((keep_host db h now).isos ≡ db.isos)
      × ((keep_host db h now).installations ≡ db.installations)
unfolding keep_host update_host
keep_host_tables db h now = ground arith

keep_host-Going :
    (db : Db) (reg : Registry) (ic : InstallContext) (h : Host) (now : Time)
    → h.id ≡ ic.host.id
    → h.hostname ≡ ic.host.hostname
    → h.mac ≡ ic.host.mac
    → Going db reg ic
    → Going (keep_host db h now) reg ic
unfolding installation_by_token active_installation_for_host
keep_host-Going db reg ic h now id hostname mac g =
    let (versions, profiles, isos, installations) = keep_host_tables db h now in
    let (k, found, kept) = keep_host-found db h g.host now (ap (host_by_id db) id ∙ g.by_id) in
    let w = g.same_host in
    let x = g.same_hostname in
    let y = g.same_mac in
    record {
      install = g.install;
      host = k;
      by_token = rw installations g.by_token;
      active = rw installations g.active;
      by_id = ap (host_by_id (keep_host db h now)) (sym id) ∙ found;
      same_host = ground arith;
      same_hostname = ground arith;
      same_mac = ground arith;
      same_install = g.same_install;
      same_token = g.same_token;
      of_host = g.of_host;
      same_version = g.same_version;
      parts = Parts-same db (keep_host db h now) reg _ _ _ _ _ versions profiles isos g.parts;
    }

pub mark_installing-Going :
    (db : Db) (reg : Registry) (ic : InstallContext) (now : Time)
    → Going db reg ic
    → Going (mark_installing db ic now) reg ic
unfolding mark_installing
mark_installing-Going db reg ic now g = elim (Bool-cases (is_waiting ic.install.status)) [
  | inr e ↦ rw (mark_installing, e) g
  | inl e ↦
      rw (mark_installing, e)
        (keep_host-Going (mark_installation_started db ic.install.id now) reg ic
          (record ic.host { status = installing }) now refl refl refl
          (mark_installation_started-Going db reg ic ic.install.id now g))
]

pub Going-context :
    (db : Db) (reg : Registry) (ic : InstallContext) (g : Going db reg ic)
    → context_by_token db reg ic.install.token
      ≡ resolved (record ic { host = g.host; install = g.install })
unfolding context_by_token token_context host_context context_of_loaded load_install_context
    with_installation with_version with_profile with_manifest with_iso_id with_iso
Going-context db reg ic g =
    let p = g.parts in
    let h = g.host in
    let i = g.install in
    ap (token_context db reg) g.by_token
    ∙ ap (λ k. host_context db reg (host_by_id db k)) g.of_host
    ∙ ap (host_context db reg) g.by_id
    ∙ ap context_of_loaded (
        ap (λ k. with_installation db reg h (active_installation_for_host db k)) g.same_host
        ∙ ap (with_installation db reg h) g.active
        ∙ ap (λ k. with_version db reg h i (profile_version_by_id db k)) g.same_version
        ∙ ap (with_version db reg h i) p.version
        ∙ ap (with_profile db reg h i ic.version) p.profile
        ∙ ap (with_manifest db h i ic.version ic.profile) p.provider
        ∙ ap (with_iso_id db h i ic.version ic.profile ic.manifest) p.has_iso
        ∙ ap (with_iso h i ic.version ic.profile ic.manifest) p.iso_found)

pub start-Going :
    (db : Db) (reg : Registry) (host : Host) (ic : InstallContext)
    → load_install_context db reg host ≡ loaded ic
    → host_by_id db host.id ≡ ok host
    → installation_by_token db ic.install.token ≡ ok ic.install
    → Going db reg ic
unfolding load_install_context active_installation_for_host
start-Going db reg host ic l id token =
    let r = active_installation_for_host db host.id in
    let (active, same) = loaded_installation db reg host r ic l in
    let holds =
      first_holds (λ i. i.host_id == host.id && is_active i.status) db.installations ic.install in
    let of = (ℕ_eq.equals_iff ic.install.host_id host.id).0 in
    record {
      install = ic.install;
      host = ic.host;
      by_token = token;
      active = rw same active;
      by_id = rw same id;
      same_host = refl;
      same_hostname = refl;
      same_mac = refl;
      same_install = refl;
      same_token = refl;
      of_host = ground arith;
      same_version = refl;
      parts = load_install_context-Parts db reg host ic l;
    }
