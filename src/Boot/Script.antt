-- ===== src/Boot/Script.antt =====
-- The iPXE scripts: installScript, answerParams and messageScript of backend/internal/boot/install.go.
use Prim.Native.String.{◌++◌}
use helboot.Prelude.{
  ℕ, String, List, [], ◌∷◌, Option, none, some, ◌==◌, String_eq, if◌then◌else◌, contains_char,
  trim_prefix_char, trim_space, split_last, decimal,
}
use helboot.Model.{Host, HostStatus, discovered}
use helboot.Provider.Manifest.{boot_method, Manifest, BootConfig}
use helboot.Answer.{Params, Engine, Rendered, rendered, render_error, panicked, render}
use helboot.Boot.Context.{InstallContext}

unfoldable pub message_script : String → String
message_script msg = "#!ipxe\necho HELBOOT: " ++ (msg ++ "\nsleep 5\nexit\n")

unfoldable pub answer_params : String → InstallContext → Params
unfolding decimal
answer_params base ic =
    let token = ic.install.token in
    record {
      answer_file_url = base ++ ("/boot/answer/" ++ token);
      iso_url = base ++ ("/boot/isofile/" ++ decimal ic.iso.id);
      iso_content_url = base ++ ("/boot/iso/" ++ decimal ic.iso.id);
      cloud_init_url = base ++ ("/boot/cloudinit/" ++ (token ++ "/"));
      report_url = base ++ ("/boot/report/" ++ token);
      hostname = ic.host.hostname;
      mac = ic.host.mac;
    }

-- boot["pxe"], or else boot["http_boot"]
unfoldable pub boot_config : Manifest → Option BootConfig
unfolding boot_method
boot_config m = elim (boot_method m.boot "pxe") [
  | some c ↦ some c
  | none ↦ boot_method m.boot "http_boot"
]

-- A path with a "/" lies inside the ISO, a bare name among the boot assets.
unfoldable pub resolve : String → ℕ → String → String
unfolding contains_char trim_prefix_char decimal
resolve base iso_id p =
    if contains_char b'/' p
    then base ++ ("/boot/iso/" ++ (decimal iso_id ++ ("/" ++ trim_prefix_char b'/' p)))
    else base ++ ("/boot/assets/" ++ p)

-- "source=localname" gives an ISO file another local name.
unfoldable pub initrd_line : String → ℕ → String → String
unfolding resolve split_last
initrd_line base iso_id initrd = elim (split_last b'=' initrd) [
  | none ↦ "initrd " ++ (resolve base iso_id initrd ++ "\n")
  | some (src, name) ↦
      if name == ""
      then "initrd " ++ (resolve base iso_id src ++ "\n")
      else "initrd " ++ (resolve base iso_id src ++ (" " ++ (name ++ "\n")))
]

unfoldable pub initrd_lines : String → ℕ → List String → String
unfolding initrd_line
initrd_lines base iso_id [] = ""
initrd_lines base iso_id (i ∷ is) = initrd_line base iso_id i ++ initrd_lines base iso_id is

unfoldable pub install_lines : String → InstallContext → BootConfig → String → String
unfolding resolve initrd_lines trim_space
install_lines base ic c cmdline =
    "#!ipxe\n"
    ++ (("echo HELBOOT: installing " ++ (ic.profile.name ++ (" on " ++ (ic.host.mac ++ "\n"))))
        ++ (("kernel "
              ++ (resolve base ic.iso.id c.kernel ++ (" " ++ (trim_space cmdline ++ "\n"))))
            ++ (initrd_lines base ic.iso.id c.initrd ++ "boot\n")))

script_of_rendered : String → InstallContext → BootConfig → Rendered → Option String
unfolding message_script install_lines
script_of_rendered base ic c (rendered cmdline) = some (install_lines base ic c cmdline)
script_of_rendered base ic c (render_error e) =
    some (message_script "boot configuration error, check the HELBOOT logs")
script_of_rendered base ic c panicked = none

module _ (engine : Engine) where
  -- installScript; `none` is a panic.
  unfoldable pub install_script : String → InstallContext → Option String
  unfolding message_script answer_params boot_config script_of_rendered
  install_script base ic = elim (boot_config ic.manifest) [
    | none ↦
        some
          (message_script ("provider " ++ (ic.manifest.name ++ " does not support network boot")))
    | some c ↦
        script_of_rendered base ic c
          (render engine c.cmdline ic.version.config (answer_params base ic))
  ]

-- The end of scriptFor in backend/internal/boot/boot.go: a host with nothing to install.
unfoldable pub idle_script : Host → HostStatus → String
idle_script host discovered =
    "#!ipxe\n"
    ++ (("echo HELBOOT: host " ++ (host.mac ++ " discovered - assign a profile in the web UI\n"))
        ++ "sleep 5\nexit\n")
idle_script host _ =
    "#!ipxe\n"
    ++ (("echo HELBOOT: host "
          ++ (host.mac ++ " has no pending installation, booting local disk\n"))
        ++ "exit\n")
