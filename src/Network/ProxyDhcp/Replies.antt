-- ===== src/Network/ProxyDhcp/Replies.antt =====
-- When ProxyDHCP answers, and with what: backend/internal/network/proxydhcp.go.
use text.Mathlib.TextEquality.{eq_iff}
use helboot.Prelude.{◌≡◌, ◌≢◌, Bool, true, some, none, arith, if◌then◌else◌, String_eq}
use helboot.Network.Ip.{v4}
use helboot.Network.Message.{boot_request, discover, offer, request, ack, Request, Reply, NewReply}
use helboot.Network.Pxe.{BootConfig, is_pxe_request, boot_filename, apply_pxe_options}
use helboot.Network.ProxyDhcp.{build_reply}

-- The messages that a port may answer.
abbrev pub Answerable : Request → Bool → Type 0
Answerable req is_port67 =
    (req.op_code ≡ boot_request)
    × (is_pxe_request req ≡ true)
    × (req.message_type ≡ (if is_port67 then discover else request))

module _ (new_reply : NewReply) (cfg : BootConfig) where
  -- A reply goes only to a PXE client's DISCOVER on port 67 or REQUEST on port 4011, is an offer
  -- or an acknowledgement in turn, assigns no address, and names a boot file of this server.
  pub build_reply-Answerable :
      (req : Request) (is_port67 : Bool) (r : Reply)
      → build_reply new_reply cfg req is_port67 ≡ some r
      → Answerable req is_port67
        × (r.your_ip_addr ≡ v4 0)
        × (r.message_type ≡ some (if is_port67 then offer else ack))
        × (r.server_ip_addr ≡ cfg.server_ip)
        × (r.boot_file_name ≡ boot_filename cfg req)
        × (boot_filename cfg req ≢ "")
  unfolding build_reply apply_pxe_options
  build_reply-Answerable req is_port67 r h = (
    (ground arith, ground arith, ground arith),
    ground arith,
    ground arith,
    ground arith,
    ground arith,
    λ e. ground (arith, eq_iff (boot_filename cfg req) ""),
  )

  -- Every such message of a PXE client with a boot file is answered, when the library builds a
  -- reply.
  pub Answerable-build_reply :
      (req : Request) (is_port67 : Bool) (base : Reply)
      → Answerable req is_port67
      → boot_filename cfg req ≢ ""
      → new_reply req ≡ some base
      → build_reply new_reply cfg req is_port67 ≢ none
  unfolding build_reply apply_pxe_options
  Answerable-build_reply req is_port67 base a f b h =
      ground (arith, eq_iff (boot_filename cfg req) "")
