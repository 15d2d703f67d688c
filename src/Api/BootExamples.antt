-- ===== src/Api/BootExamples.antt =====
-- An installation from the boot script to the report: backend/internal/boot/boot.go and install.go.
use helboot.Prelude.{◌⊎◌, String, ◌≡◌, refl, [], ◌∷◌, none, some, ◌==◌, String_eq, if◌then◌else◌}
use helboot.Model.{install_success}
use helboot.Provider.Manifest.{Manifest, Registry}
use helboot.Answer.{FileRead, content, failing, not_exist}
use helboot.Boot.Context.{InstallContext}
use helboot.Boot.Script.{install_script}
use helboot.Boot.Serve.{handle_script, handle_report, log_line}
use helboot.Boot.AnswerFile.{answer_file, handle_answer_file}
use helboot.Boot.Reports.{Finished}
use helboot.Boot.Chain.{script_to_report}
use helboot.Api.Fixtures.{
  pc, new_installation, version_one, desktop, iso, ubuntu, queued_db, engine, templates,
}

abbrev bootable : Manifest
bootable = record ubuntu {
  boot =
      ("pxe", record { kernel = "casper/vmlinuz"; initrd = "casper/initrd" ∷ []; cmdline = "" })
      ∷ [];
}

abbrev providers : Registry
providers name = if name == "ubuntu" then some bootable else none

abbrev context : InstallContext
context = record {
  host = pc;
  install = new_installation;
  version = version_one;
  profile = desktop;
  iso = iso;
  manifest = bootable;
}

script_to_report_example :
    let booted = handle_script engine queued_db providers "http://h" "AA-BB-CC-DD-EE-01" "" "" 3 in
    let reported = handle_report (λ _. "now") booted.2 providers "t2" "success" 9 in
    ((((script : String) × (install_script engine "http://h" context ≡ some script)
        × (booted.0 ≡ 200)
        × (booted.1 ≡ script)))
      ⊎ ((install_script engine "http://h" context ≡ none)
          × (booted ≡ (500, "internal", queued_db))))
    × (handle_answer_file engine templates "p" "http://h" booted.2 providers "t2"
        ≡ answer_file engine templates "p" "http://h" context)
    × (reported.0 ≡ 204)
    × Finished booted.2 2 install_success (log_line (λ _. "now") install_success 9) 9 reported.1
unfolding helboot.Network.Mac.normalize_mac helboot.Store.Hosts.host_by_mac
    helboot.Store.Hosts.host_by_id helboot.Boot.Context.load_install_context
    helboot.Store.Installations.installation_by_token
    helboot.Store.Installations.active_installation_for_host
    helboot.Store.Profiles.profile_version_by_id helboot.Store.Profiles.profile_by_id
    helboot.Store.Isos.iso_by_id helboot.Prelude.trim_space
script_to_report_example =
    script_to_report engine templates "p" "http://h" (λ _. "now") queued_db providers
      "AA-BB-CC-DD-EE-01" "aa:bb:cc:dd:ee:01" "" "" 3 9 pc context refl refl refl refl refl

script_text :
    install_script engine "http://h" context
    ≡ some
        "#!ipxe\necho HELBOOT: installing desktop on aa:bb:cc:dd:ee:01\nkernel http://h/boot/iso/1/casper/vmlinuz \ninitrd http://h/boot/iso/1/casper/initrd\nboot\n"
unfolding install_script helboot.Answer.render
script_text = refl

-- A version that was imported with the configuration `null`.
null_config :
    install_script engine "http://h"
      (record context { version = record version_one { config = "null" } })
    ≡ none
unfolding install_script helboot.Answer.render
null_config = refl
