-- ===== src/Boot/Tokens.antt =====
-- What an installation's token gives access to: contextByToken and handleReport of
-- backend/internal/boot/install.go.
use helboot.Prelude.{
  ◌≡◌, ◌≢◌, refl, ap, sym, ◌∙◌, String, true, false, arith, ◌==◌, ℕ_eq, String_eq, first_holds,
}
use helboot.Model.{Host, Installation}
use helboot.Store.Db.{
  Db, Result, ok, err, not_found, version_in_use, no_head_version, invalid_final_status, constraint,
}
use helboot.Store.Db.Counting.{first_of_one}
use helboot.Store.Hosts.{host_by_id}
use helboot.Store.Hosts.Lookup.{find_host}
use helboot.Store.Installations.{is_active, installation_by_token, active_installation_for_host}
use helboot.Store.Installations.Active.{OneActive, active_of}
use helboot.Provider.Manifest.{Registry}
use helboot.Boot.Context.{
  InstallContext, Loaded, loaded, not_bootable, nothing_queued, store_failure, load_install_context,
  resolved, context_by_token, with_installation, with_version, with_profile, with_manifest,
  with_iso_id, with_iso, token_context, host_context, context_of_loaded,
}

pub loaded_installation :
    (db : Db) (reg : Registry) (host : Host) (r : Result Installation) (ic : InstallContext)
    → with_installation db reg host r ≡ loaded ic
    → (r ≡ ok ic.install) × (ic.host ≡ host)
unfolding with_installation with_version with_profile with_manifest with_iso_id with_iso
loaded_installation db reg host (ok i) ic h = ground arith
loaded_installation db reg host (err not_found) ic h = absurd (ground arith)
loaded_installation db reg host (err version_in_use) ic h = absurd (ground arith)
loaded_installation db reg host (err no_head_version) ic h = absurd (ground arith)
loaded_installation db reg host (err invalid_final_status) ic h = absurd (ground arith)
loaded_installation db reg host (err constraint) ic h = absurd (ground arith)

pub resolved_host :
    (db : Db) (reg : Registry) (r : Result Host) (ic : InstallContext)
    → host_context db reg r ≡ resolved ic
    → (host : Host) × (r ≡ ok host) × (load_install_context db reg host ≡ loaded ic)
unfolding host_context
resolved_host db reg (ok host) ic h = (host, refl, go (load_install_context db reg host) h)
  where
    go : (l : Loaded) → context_of_loaded l ≡ resolved ic → l ≡ loaded ic
    go nothing_queued e = absurd (ground arith)
    go (not_bootable r) e = absurd (ground arith)
    go store_failure e = absurd (ground arith)
    go (loaded jc) e = ground arith
resolved_host db reg (err e) ic h = absurd (ground arith)

-- A token that resolves stands for its installation's host, and for whichever installation of that
-- host is active now.
pub context_by_token_active :
    (db : Db) (reg : Registry) (token : String) (i : Installation) (ic : InstallContext)
    → installation_by_token db token ≡ ok i
    → context_by_token db reg token ≡ resolved ic
    → (host_by_id db i.host_id ≡ ok ic.host)
      × (active_installation_for_host db i.host_id ≡ ok ic.install)
unfolding context_by_token token_context host_context load_install_context
context_by_token_active db reg token i ic found h =
    let (host, known, l) =
      resolved_host db reg (host_by_id db i.host_id) ic
        (ap (token_context db reg) (sym found) ∙ h) in
    let (active, same) =
      loaded_installation db reg host (active_installation_for_host db host.id) ic l in
    let id = find_host db i.host_id host known in
    (known ∙ ap ok (sym same), ap (active_installation_for_host db) (sym id) ∙ active)

-- Where no host has two active installations, the token of an active installation resolves to that
-- installation.
pub context_by_token-Scoped :
    (db : Db) (reg : Registry) (token : String) (i : Installation) (ic : InstallContext)
    → OneActive db
    → installation_by_token db token ≡ ok i
    → is_active i.status ≡ true
    → context_by_token db reg token ≡ resolved ic
    → ic.install ≡ i
unfolding installation_by_token active_installation_for_host
context_by_token-Scoped db reg token i ic v found active h =
    let (known, current) = context_by_token_active db reg token i ic found h in
    let only = first_of_one (active_of i.host_id) (λ k. k.token == token) db.installations i in
    let same = (ℕ_eq.equals_iff i.host_id i.host_id).1 refl in
    let few = v.at_host i.host_id in ground arith

-- The token of an installation that has ended is not refused: where its host exists and has an
-- active installation that can boot, the token resolves to that installation, which is another
-- one, active on the same host.
pub context_by_token-other :
    (db : Db) (reg : Registry) (token : String) (i : Installation) (host : Host)
    (ic : InstallContext)
    → installation_by_token db token ≡ ok i
    → is_active i.status ≡ false
    → host_by_id db i.host_id ≡ ok host
    → load_install_context db reg host ≡ loaded ic
    → (context_by_token db reg token ≡ resolved ic)
      × (ic.install ≢ i)
      × (ic.install.host_id ≡ i.host_id)
      × (is_active ic.install.status ≡ true)
unfolding active_installation_for_host context_by_token token_context host_context context_of_loaded
context_by_token-other db reg token i host ic found ended host_known l =
    let res : context_by_token db reg token ≡ resolved ic =
      ap (token_context db reg) found
      ∙ ap (host_context db reg) host_known
      ∙ ap context_of_loaded l in
    let (known, current) = context_by_token_active db reg token i ic found res in
    let holds = first_holds (active_of i.host_id) db.installations ic.install in
    let same = (ℕ_eq.equals_iff ic.install.host_id i.host_id).0 in
    (res, ground arith, ground arith, ground arith)
