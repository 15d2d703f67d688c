-- ===== src/Network/Examples.antt =====
-- The theorems on the services of backend/internal/network at concrete pools and messages, and tests.
use helboot.Prelude.{
  ◌+◌, String_eq, eq_iff, ℕ, ◌≤◌, ◌<◌, ◌≢◌, ◌⊎◌, inl, inr, String, ◌≡◌, refl, Bool, true, false,
  ◌&&◌, List, [], ◌∷◌, Option, none, some, arith, leb, ◌==◌, ℕ_eq, if◌then◌else◌,
}
use helboot.Network.Ip.{Ip, absent, v4, u32_mod}
use helboot.Network.Mac.{normalize_mac}
use helboot.Network.LeasePool.{
  is_vacant, LeasePool, ok, new_lease_pool, allocate, assigned, looping, assign, choose, confirm,
}
use helboot.Network.LeasePool.Wrap.{allocate_wraps}
use helboot.Network.LeasePool.Invariant.{Inv}
use helboot.Network.LeasePool.Allocate.{Granted, allocate-Granted, allocate_ends}
use helboot.Network.LeasePool.History.{new-Inv}
use helboot.Network.Message.{
  boot_request, MessageType, discover, offer, request, ack, efi_x86_64, Request, Reply, NewReply,
}
use helboot.Network.Pxe.{BootConfig, boot_filename, is_pxe_request}
use helboot.Network.DhcpServer.{DhcpConfig, asked_for, reply, build_reply}
use helboot.Network.DhcpServer.Replies.{Acked, build_reply-Acked}
use helboot.Network.DhcpServer.Handshake.{build_reply_handshake}
use helboot.Network.ProxyDhcp
use helboot.Network.ProxyDhcp.Replies.{Answerable, build_reply-Answerable}

abbrev client : String
client = "aa"

-- 10.0.0.10 to 10.0.0.12
abbrev pool : LeasePool
pool = record {
  start = 0x0a00000a;
  end = 0x0a00000c;
  duration = 100;
  store = none;
  by_mac = λ _. none;
  by_ip = λ _. none;
}

pool_new : new_lease_pool (v4 0x0a00000a) (v4 0x0a00000c) 100 none ≡ ok pool
unfolding new_lease_pool
pool_new = refl

pool-Inv : Inv pool
pool-Inv = new-Inv (v4 0x0a00000a) (v4 0x0a00000c) 100 none pool pool_new

abbrev pool_one : LeasePool
pool_one = assign pool "aa" 0x0a00000a "pc" 5

first_allocation : allocate 9 pool "aa" absent "pc" 5 ≡ assigned 0x0a00000a pool_one
unfolding allocate choose
first_allocation = refl

granted : Granted pool pool_one "aa" 5 0x0a00000a × Inv pool_one
granted =
    allocate-Granted 9 pool "aa" absent "pc" 5 0x0a00000a pool_one (omega arith) pool-Inv
      first_allocation

allocate-Granted_example : Granted pool pool_one "aa" 5 0x0a00000a × Inv pool_one
allocate-Granted_example =
    allocate-Granted 9 pool "aa" absent "pc" 5 0x0a00000a pool_one (omega arith) pool-Inv
      first_allocation

allocate_ends_example : allocate 9 pool_one "bb" absent "pc" 6 ≢ looping
unfolding assign
allocate_ends_example =
    allocate_ends 9 pool_one "bb" absent "pc" 6 (omega arith) (omega arith) (omega arith)

abbrev narrow : LeasePool
narrow = record {
  start = 7;
  end = 7;
  duration = 100;
  store = none;
  by_mac = λ m. if m == "aa" then some (record { mac = "aa"; ip = 7; expires = 105 }) else none;
  by_ip = λ n. if n == 7 then some (record { mac = "aa"; ip = 7; expires = 105 }) else none;
}

abbrev other_address : ℕ
other_address = 0x0a00000b

abbrev blank : Reply
blank = record {
  your_ip_addr = absent;
  server_ip_addr = absent;
  boot_file_name = "";
  message_type = none;
  server_identifier = none;
  subnet_mask = none;
  lease_time = none;
  router = none;
  dns = none;
  tftp_server_name = none;
  boot_file_option = none;
  class_identifier = none;
  vendor_specific = none;
}

abbrev new_reply : NewReply
new_reply req = some blank

abbrev boot : BootConfig
boot = record { server_ip = v4 0x0a000001; script_url = "http://10.0.0.1/boot/ipxe" }

abbrev cfg : DhcpConfig
cfg = record { boot = boot; subnet_mask = 0xffffff00; gateway = v4 0x0a000001; dns = [] }

abbrev message : MessageType → Ip → Request
message mt ip = record {
  op_code = boot_request;
  message_type = mt;
  client_hw_addr = client;
  client_ip_addr = absent;
  requested_ip = ip;
  server_identifier = absent;
  host_name = "pc";
  class_identifier = "PXEClient";
  user_class = [];
  client_arch = efi_x86_64 ∷ [];
  is_broadcast = false;
}

abbrev filled : MessageType → Reply
filled mt = record blank {
  message_type = some mt;
  your_ip_addr = v4 0x0a00000a;
  server_identifier = some (v4 0x0a000001);
  subnet_mask = some 0xffffff00;
  lease_time = some 100;
  router = some (v4 0x0a000001);
  server_ip_addr = v4 0x0a000001;
  boot_file_name = "ipxe.efi";
  tftp_server_name = some (v4 0x0a000001);
  boot_file_option = some "ipxe.efi";
  class_identifier = some "PXEClient";
  vendor_specific = some (6 ∷ 1 ∷ 8 ∷ 255 ∷ []);
}

offered :
    build_reply new_reply 9 cfg pool (message discover absent) 5
    ≡ some (some (filled offer), pool_one)
unfolding build_reply reply allocate choose is_pxe_request helboot.Network.Pxe.apply_pxe_options
    boot_filename assign
offered = refl

build_reply-Acked_example :
    (ip : ℕ) × Acked new_reply 9 cfg pool pool_one
      (message request (v4 0x0a00000a))
      5
      (filled ack)
      ip
unfolding build_reply reply asked_for confirm allocate choose helboot.Network.Ip.ip_equal
    is_pxe_request helboot.Network.Pxe.apply_pxe_options boot_filename assign
build_reply-Acked_example =
    build_reply-Acked new_reply 9 cfg pool pool_one (message request (v4 0x0a00000a)) 5 (filled ack)
      (omega arith) pool-Inv refl refl

build_reply_handshake_example :
    ((filled offer).message_type ≡ some offer)
    × ((r' : Reply) × (q' : LeasePool) × (build_reply new_reply 9 cfg pool_one
            (message request (v4 0x0a00000a))
            60
          ≡ some (some r', q'))
        × (r'.message_type ≡ some ack)
        × (r'.your_ip_addr ≡ v4 0x0a00000a))
build_reply_handshake_example =
    build_reply_handshake new_reply 9 cfg pool pool_one (message discover absent)
      (message request (v4 0x0a00000a)) 5 60 (filled offer) blank (omega arith) (omega arith)
      pool-Inv refl refl offered refl refl refl refl (omega arith) refl

abbrev proxied : Reply
proxied = record blank {
  message_type = some offer;
  your_ip_addr = v4 0;
  server_identifier = some (v4 0x0a000001);
  server_ip_addr = v4 0x0a000001;
  boot_file_name = "ipxe.efi";
  tftp_server_name = some (v4 0x0a000001);
  boot_file_option = some "ipxe.efi";
  class_identifier = some "PXEClient";
  vendor_specific = some (6 ∷ 1 ∷ 8 ∷ 255 ∷ []);
}

build_reply-Answerable_example :
    Answerable (message discover absent) true
    × (proxied.your_ip_addr ≡ v4 0)
    × (proxied.message_type ≡ some (if true then offer else ack))
    × (proxied.server_ip_addr ≡ boot.server_ip)
    × (proxied.boot_file_name ≡ boot_filename boot (message discover absent))
    × (boot_filename boot (message discover absent) ≢ "")
unfolding ProxyDhcp.build_reply is_pxe_request helboot.Network.Pxe.apply_pxe_options boot_filename
build_reply-Answerable_example =
    build_reply-Answerable new_reply boot (message discover absent) true proxied refl

mac_of_dashes : normalize_mac " AA-BB-CC-dd-ee-01" ≡ some "aa:bb:cc:dd:ee:01"
unfolding normalize_mac helboot.Prelude.trim_space
mac_of_dashes = refl

mac_of_dots : normalize_mac "aabb.ccdd.eeff" ≡ some "aa:bb:cc:dd:ee:ff"
unfolding normalize_mac helboot.Prelude.trim_space
mac_of_dots = refl

mac_of_mixed : normalize_mac "aa:bb-cc:dd:ee:ff" ≡ none
unfolding normalize_mac helboot.Prelude.trim_space
mac_of_mixed = refl

mac_too_long : normalize_mac "01:23:45:67:89:ab:cd:ef" ≡ none
unfolding normalize_mac helboot.Prelude.trim_space
mac_too_long = refl

-- Both addresses of a range up to 255.255.255.255 are leased.
abbrev topmost : LeasePool
topmost = record {
  start = 0xfffffffe;
  end = 0xffffffff;
  duration = 100;
  store = none;
  by_mac =
      λ m. if m == "aa" then some (record { mac = "aa"; ip = 0xffffffff; expires = 105 }) else none;
  by_ip =
      λ n. if leb 0xfffffffe n then some (record { mac = "aa"; ip = n; expires = 105 }) else none;
}

topmost_taken : (n : ℕ) → 0xfffffffe ≤ n → n ≤ 0xffffffff → is_vacant topmost 6 n ≡ false
unfolding is_vacant
topmost_taken n low high = ground arith

allocate_wraps_example :
    allocate 4 topmost "bb" absent "pc" 6 ≡ assigned 0 (assign topmost "bb" 0 "pc" 6)
unfolding is_vacant
allocate_wraps_example =
    allocate_wraps topmost 6 refl topmost_taken refl 4 "bb" "pc" (omega arith) (omega arith) refl
