-- ===== src/Boot/Chain.antt =====
-- From the boot script to the answer file and the report of one installation: handleScript of
-- backend/internal/boot/boot.go, and handleAnswerFile and handleReport of install.go.
use helboot.Prelude.{
  ◌⊎◌, inl, inr, Option, none, String, ◌≡◌, refl, ap, ◌∙◌, Bool, true, false, some, ℕ_eq, String_eq,
  if◌then◌else◌, contains, subst,
}
use helboot.Network.Mac.{normalize_mac}
use helboot.Time.{Time}
use helboot.Model.{Host, install_success}
use helboot.Store.Db.{Db, ok}
use helboot.Store.Hosts.{host_by_id, host_by_mac}
use helboot.Store.Installations.{installation_by_token}
use helboot.Provider.Manifest.{Registry}
use helboot.Answer.{Engine, FileRead}
use helboot.Boot.Context.{InstallContext, loaded, load_install_context}
use helboot.Boot.Script.{answer_params, install_script}
use helboot.Boot.Serve.{
  mark_installing, serve_script, recovered, serve_loaded, script_for, script_or_discover,
  script_for_mac, handle_script, handle_report, log_line, report_status,
}
use helboot.Boot.AnswerFile.{answer_file, answer_by_token, handle_answer_file}
use helboot.Boot.Reports.{Finished, handle_report-Finished}
use helboot.Boot.Installing.{Going, mark_installing-Going, Going-context, start-Going}

module _ (engine : Engine) (disk : String → FileRead) (providers_dir base : String) where
  answer_file-Going :
      (db : Db) (reg : Registry) (ic : InstallContext) (g : Going db reg ic)
      → answer_file engine disk providers_dir base
          (record ic { host = g.host; install = g.install })
        ≡ answer_file engine disk providers_dir base ic
  unfolding answer_file answer_params
  answer_file-Going db reg ic g =
      rw (answer_file, answer_params, g.same_token, g.same_hostname, g.same_mac) refl

  after_script :
      (db : Db) (reg : Registry) (raw mac arch firmware : String) (now : Time) (host : Host)
      (ic : InstallContext)
      → normalize_mac raw ≡ some mac
      → host_by_mac db mac ≡ ok host
      → load_install_context db reg host ≡ loaded ic
      → handle_script engine db reg base raw arch firmware now
        ≡ recovered (serve_script db ic now (install_script engine base ic))
  unfolding handle_script script_for_mac script_or_discover script_for serve_loaded
  after_script db reg raw mac arch firmware now host ic norm found l =
      ap (λ m. script_for_mac engine db reg base m arch firmware now) norm
      ∙ ap (script_or_discover engine db reg base mac arch firmware now) found
      ∙ ap (λ x. recovered (serve_loaded engine db base host now x)) l

  -- From the boot script to the report: where a known host asks for its script and has an active
  -- installation that can boot, it is answered by 200 with the script of that installation, or,
  -- where rendering the script panics, by 500, with the database as it was. In the database
  -- afterwards the installation's token gives its answer file as it was before, and a report of
  -- success with the token is answered by 204 and finishes this installation and no other. The
  -- host is the one of its identifier, and the installation the one of its token.
  pub script_to_report :
      (stamp : Time → String) (db : Db) (reg : Registry) (raw mac arch firmware : String)
      (now later : Time) (host : Host) (ic : InstallContext)
      → normalize_mac raw ≡ some mac
      → host_by_mac db mac ≡ ok host
      → host_by_id db host.id ≡ ok host
      → load_install_context db reg host ≡ loaded ic
      → installation_by_token db ic.install.token ≡ ok ic.install
      → let served = handle_script engine db reg base raw arch firmware now in
        let reported = handle_report stamp served.2 reg ic.install.token "success" later in
        ((((script : String) × (install_script engine base ic ≡ some script)
            × (served.0 ≡ 200)
            × (served.1 ≡ script)))
          ⊎ ((install_script engine base ic ≡ none) × (served ≡ (500, "internal", db))))
        × (handle_answer_file engine disk providers_dir base served.2 reg ic.install.token
            ≡ answer_file engine disk providers_dir base ic)
        × (reported.0 ≡ 204)
        × Finished served.2 ic.install.id install_success
            (log_line stamp install_success later)
            later
            reported.1
  unfolding handle_answer_file report_status recovered serve_script
  script_to_report stamp db reg raw mac arch firmware now later host ic norm found id l token =
      let served = after_script db reg raw mac arch firmware now host ic norm found l in
      let o = install_script engine base ic in
      let db' = (recovered (serve_script db ic now o)).2 in
      let g = going (start-Going db reg host ic l id token) o in
      let context = Going-context db' reg ic g in
      let (_, code, finished) =
        handle_report-Finished stamp db' reg ic.install.token "success" later g.install
          (record ic { host = g.host; install = g.install }) install_success g.by_token context
          refl in
      rw served (
        answered o refl,
        rw (handle_answer_file, context, answer_by_token) (answer_file-Going db' reg ic g),
        code,
        subst
            (λ k.
              Finished db' k install_success (log_line stamp install_success later) later
                (handle_report stamp db' reg ic.install.token "success" later).1)
            g.same_install finished,
      )
    where
      going :
          Going db reg ic
          → (o : Option String) → Going (recovered (serve_script db ic now o)).2 reg ic
      going g none = g
      going g (some script) = started g (contains script "\nboot\n")
        where
          started :
              Going db reg ic
              → (boots : Bool) → Going (if boots then mark_installing db ic now else db) reg ic
          started g true = mark_installing-Going db reg ic now g
          started g false = g

      answered :
          (o : Option String)
          → install_script engine base ic ≡ o
          → ((script : String) × (install_script engine base ic ≡ some script)
              × ((recovered (serve_script db ic now o)).0 ≡ 200)
              × ((recovered (serve_script db ic now o)).1 ≡ script))
            ⊎ ((install_script engine base ic ≡ none)
                × (recovered (serve_script db ic now o) ≡ (500, "internal", db)))
      answered none e = inr (e, refl)
      answered (some script) e = inl (script, e, refl, refl)
