-- ===== src/Network/Message.antt =====
-- The DHCP messages, as the services of backend/internal/network read and write them. Parsing and
-- printing are the library's (github.com/insomniacslk/dhcp).
use helboot.Prelude.{ℕ, String, Bool, Option, List}
use helboot.Network.Ip.{Ip}

pub data OpCode : Type 0 where
  boot_request boot_reply : OpCode

pub data MessageType : Type 0 where
  discover offer request decline ack nak release inform other : MessageType

-- Client system architectures (option 93) of the library's package iana.
pub data Arch : Type 0 where
  intel_x86pc efi_ia32 efi_x86_64 efi_bc efi_arm64 other_arch : Arch

-- A message from a client; an option that is not there reads as nil, "" or [].
pub record Request : Type 0 where
  pub op_code : OpCode
  pub message_type : MessageType
  pub client_hw_addr : String
  pub client_ip_addr : Ip
  pub requested_ip : Ip
  pub server_identifier : Ip
  pub host_name : String
  pub class_identifier : String
  pub user_class : List String
  pub client_arch : List Arch
  pub is_broadcast : Bool

-- The fields and options of a reply that the services set; `none` is an option not set.
pub record Reply : Type 0 where
  pub your_ip_addr : Ip
  pub server_ip_addr : Ip
  pub boot_file_name : String
  pub message_type : Option MessageType
  pub server_identifier : Option Ip
  pub subnet_mask : Option ℕ
  pub lease_time : Option ℕ
  pub router : Option Ip
  pub dns : Option (List Ip)
  pub tftp_server_name : Option Ip
  pub boot_file_option : Option String
  pub class_identifier : Option String
  pub vendor_specific : Option (List ℕ)

-- dhcpv4.NewReplyFromRequest, which may fail, is the argument `new_reply` of the services.
abbrev pub NewReply : Type 0
NewReply = Request → Option Reply
