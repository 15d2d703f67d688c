-- ===== src/Network/Pxe.antt =====
-- Boot files and PXE options: backend/internal/network/pxe.go.
use text.Mathlib.Text.{starts_with}
use helboot.Prelude.{
  String, Bool, false, ◌||◌, List, [], ◌∷◌, Option, none, some, ◌==◌, String_eq, if◌then◌else◌,
}
use helboot.Network.Ip.{Ip}
use helboot.Network.Message.{
  Arch, intel_x86pc, efi_ia32, efi_x86_64, efi_bc, efi_arm64, other_arch, Request, Reply,
}

pub record BootConfig : Type 0 where
  pub server_ip : Ip
  pub script_url : String

unfoldable pub is_ipxe_class : List String → Bool
is_ipxe_class [] = false
is_ipxe_class (uc ∷ ucs) = uc == "iPXE" || is_ipxe_class ucs

unfoldable pub is_ipxe : Request → Bool
unfolding is_ipxe_class
is_ipxe req = is_ipxe_class req.user_class

-- The `switch` on the first architecture.
unfoldable pub arch_file : Arch → String
arch_file intel_x86pc = "undionly.kpxe"
arch_file efi_ia32 = "ipxe-i386.efi"
arch_file efi_x86_64 = "ipxe.efi"
arch_file efi_bc = "ipxe.efi"
arch_file efi_arm64 = "ipxe-arm64.efi"
arch_file other_arch = ""

unfoldable pub archs_file : List Arch → String
unfolding arch_file
archs_file [] = "undionly.kpxe"
archs_file (a ∷ rest) = arch_file a

unfoldable pub boot_filename : BootConfig → Request → String
unfolding is_ipxe archs_file
boot_filename c req = if is_ipxe req then c.script_url else archs_file req.client_arch

unfoldable pub is_pxe_request : Request → Bool
unfolding is_ipxe
is_pxe_request req =
    starts_with req.class_identifier "PXEClient"
    || starts_with req.class_identifier "HTTPClient"
    || is_ipxe req

unfoldable pub firmware_of_archs : List Arch → String
firmware_of_archs [] = "bios"
firmware_of_archs (intel_x86pc ∷ rest) = "bios"
firmware_of_archs (_ ∷ rest) = "uefi"

unfoldable pub firmware_of : Request → String
unfolding firmware_of_archs
firmware_of req = firmware_of_archs req.client_arch

-- `none` is the error for an architecture that is not served.
unfoldable pub apply_pxe_options : BootConfig → Reply → Request → Option Reply
apply_pxe_options c reply req =
    let filename = boot_filename c req in
    if filename == ""
    then none
    else some (record reply {
      server_ip_addr = c.server_ip;
      boot_file_name = filename;
      tftp_server_name = some c.server_ip;
      boot_file_option = some filename;
      class_identifier = some "PXEClient";
      vendor_specific = some (6 ∷ 1 ∷ 8 ∷ 255 ∷ []);
    })
