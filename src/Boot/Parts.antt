-- ===== src/Boot/Parts.antt =====
-- What an installation is made from: loadInstallContext of backend/internal/boot/install.go.
use helboot.Prelude.{ℕ, ◌≡◌, some, arith, ℕ_eq, String_eq, Option-cases, inl, inr, ap, sym, ◌∙◌}
use helboot.Model.{Host, Installation, ProfileVersion, Profile, IsoImage}
use helboot.Store.Db.{
  Db, ok, Result, err, StoreError, not_found, version_in_use, no_head_version, invalid_final_status,
  constraint,
}
use helboot.Store.Isos.{iso_by_id}
use helboot.Store.Profiles.{profile_by_id, profile_version_by_id}
use helboot.Provider.Manifest.{Manifest, Registry}
use helboot.Boot.Context.{
  InstallContext, loaded, with_installation, with_version, with_profile, with_manifest, with_iso_id,
  with_iso, resolved, token_context, load_install_context,
}
use helboot.Store.Hosts.{host_by_id}
use helboot.Store.Installations.{active_installation_for_host}
use helboot.Boot.Tokens.{resolved_host, loaded_installation}

-- What the lookups of loadInstallContext give.
pub record Parts (db : Db) (reg : Registry) (i : Installation) (v : ProfileVersion) (p : Profile)
    (m : Manifest) (iso : IsoImage) : Type 0 where
  pub version : profile_version_by_id db i.profile_version_id ≡ ok v
  pub profile : profile_by_id db v.profile_id ≡ ok p
  pub provider : reg p.provider ≡ some m
  pub iso_id : ℕ
  pub has_iso : p.iso_id ≡ some iso_id
  pub iso_found : iso_by_id db iso_id ≡ ok iso

pub with_installation-Parts :
    (db : Db) (reg : Registry) (host : Host) (i : Installation) (ic : InstallContext)
    → with_installation db reg host (ok i) ≡ loaded ic
    → (i ≡ ic.install)
      × (host ≡ ic.host)
      × Parts db reg ic.install ic.version ic.profile ic.manifest ic.iso
unfolding with_installation with_version with_profile with_manifest with_iso_id with_iso
with_installation-Parts db reg host i ic h = elim (Option-cases ic.profile.iso_id) [
  | inl e ↦ absurd (ground arith)
  | inr (id, e) ↦ (
    ground arith,
    ground arith,
    record {
      version = ground arith;
      profile = ground arith;
      provider = ground arith;
      iso_id = id;
      has_iso = e;
      iso_found = ground arith;
    },
  )
]

pub Parts-same :
    (db db' : Db) (reg : Registry) (i : Installation) (v : ProfileVersion) (p : Profile)
    (m : Manifest) (iso : IsoImage)
    → db'.versions ≡ db.versions
    → db'.profiles ≡ db.profiles
    → db'.isos ≡ db.isos
    → Parts db reg i v p m iso
    → Parts db' reg i v p m iso
unfolding profile_version_by_id profile_by_id iso_by_id
Parts-same db db' reg i v p m iso versions profiles isos parts = record {
  version = rw versions parts.version;
  profile = rw profiles parts.profile;
  provider = parts.provider;
  iso_id = parts.iso_id;
  has_iso = parts.has_iso;
  iso_found = rw isos parts.iso_found;
}

pub load_install_context-Parts :
    (db : Db) (reg : Registry) (host : Host) (ic : InstallContext)
    → load_install_context db reg host ≡ loaded ic
    → Parts db reg ic.install ic.version ic.profile ic.manifest ic.iso
unfolding load_install_context
load_install_context-Parts db reg host ic l =
    let r = active_installation_for_host db host.id in
    let (active, same) = loaded_installation db reg host r ic l in
    (with_installation-Parts db reg host ic.install ic
      (ap (with_installation db reg host) (sym active) ∙ l)).2

pub context_parts :
    (db : Db) (reg : Registry) (r : Result Installation) (ic : InstallContext)
    → token_context db reg r ≡ resolved ic
    → (profile_by_id db ic.version.profile_id ≡ ok ic.profile)
      × (reg ic.profile.provider ≡ some ic.manifest)
unfolding token_context load_install_context
context_parts db reg (ok i) ic h =
    let (host, known, l) = resolved_host db reg (host_by_id db i.host_id) ic h in
    let parts = load_install_context-Parts db reg host ic l in (parts.profile, parts.provider)
context_parts db reg (err e) ic h = absurd (go e h)
  where
    go : (e : StoreError) → token_context db reg (err e) ≡ resolved ic → ⊥
    go not_found k = ground arith
    go version_in_use k = ground arith
    go no_head_version k = ground arith
    go invalid_final_status k = ground arith
    go constraint k = ground arith
