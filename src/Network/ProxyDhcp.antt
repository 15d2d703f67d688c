-- ===== src/Network/ProxyDhcp.antt =====
-- ProxyDHCP of Mode A: backend/internal/network/proxydhcp.go. The services beside it are the
-- existing DHCP server's, so it keeps no state.
pub mod Replies
use helboot.Prelude.{Bool, true, false, not, ◌||◌, Option, none, some, if◌then◌else◌}
use helboot.Network.Ip.{v4}
use helboot.Network.Message.{
  OpCode, boot_request, boot_reply, MessageType, discover, request, offer, ack, Request, Reply,
  NewReply,
}
use helboot.Network.Pxe.{BootConfig, is_pxe_request, apply_pxe_options}

-- The message type that a port answers: DISCOVER on 67, REQUEST on 4011.
answered : MessageType → Bool → Bool
answered discover is_port67 = is_port67
answered request is_port67 = not is_port67
answered _ is_port67 = false

is_boot_request : OpCode → Bool
is_boot_request boot_request = true
is_boot_request boot_reply = false

module _ (new_reply : NewReply) (cfg : BootConfig) where
  unfoldable pub build_reply : Request → Bool → Option Reply
  unfolding answered is_boot_request
  build_reply req is_port67 =
      if not (is_boot_request req.op_code) || not (is_pxe_request req)
      then none
      else if answered req.message_type is_port67
      then (elim (new_reply req) [
        | none ↦ none
        | some r ↦
            apply_pxe_options cfg
              (record r {
                message_type = some (if is_port67 then offer else ack);
                your_ip_addr = v4 0;
                server_identifier = some cfg.server_ip;
              })
              req
      ])
      else none
