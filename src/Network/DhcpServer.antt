-- ===== src/Network/DhcpServer.antt =====
-- The DHCP server of Mode B: backend/internal/network/dhcpserver.go. A handler that never returns,
-- since the pool's scan does not end, is `none`.
pub mod Replies
pub mod Handshake
use helboot.Prelude.{
  ℕ, String, Bool, true, false, ◌||◌, List, [], ◌∷◌, Option, none, some, if◌then◌else◌,
}
use helboot.Time.{Time}
use helboot.Network.Ip.{Ip, absent, v4, is_unspecified, ip_equal}
use helboot.Network.LeasePool.{
  LeasePool, Allocation, assigned, exhausted, looping, allocate, confirm, release as release_lease,
}
use helboot.Network.Message.{
  OpCode, boot_request, boot_reply, MessageType, discover, offer, request, decline, ack, nak,
  release, Request, Reply, NewReply,
}
use helboot.Network.Pxe.{BootConfig, is_pxe_request, apply_pxe_options}

-- DHCPConfig without the pool, which is the server's state.
pub record DhcpConfig : Type 0 where
  pub boot : BootConfig
  pub subnet_mask : ℕ
  pub gateway : Ip
  pub dns : List Ip

is_absent : Ip → Bool
is_absent absent = true
is_absent _ = false

some_router : Ip → Option Ip → Option Ip
some_router absent before = before
some_router gateway before = some gateway

some_dns : List Ip → Option (List Ip) → Option (List Ip)
some_dns [] before = before
some_dns (d ∷ ds) before = some (d ∷ ds)

-- requested == nil || requested.IsUnspecified(): the address of a renewal is the client's own.
unfoldable pub asked_for : Request → Ip
unfolding is_absent is_unspecified
asked_for req =
    if is_absent req.requested_ip || is_unspecified req.requested_ip
    then req.client_ip_addr
    else req.requested_ip

with_pxe : BootConfig → Request → Reply → Reply
with_pxe boot req r =
    if is_pxe_request req
    then (elim (apply_pxe_options boot r req) [ none ↦ r | some r' ↦ r' ])
    else r

module _ (new_reply : NewReply) (rounds : ℕ) (cfg : DhcpConfig) where
  unfoldable pub reply : LeasePool → Request → MessageType → Ip → Option Reply
  unfolding with_pxe some_router some_dns
  reply p req mt ip = elim (new_reply req) [
    | none ↦ none
    | some r ↦ some (
        with_pxe cfg.boot req (record r {
          message_type = some mt;
          your_ip_addr = ip;
          server_identifier = some cfg.boot.server_ip;
          subnet_mask = some cfg.subnet_mask;
          lease_time = some p.duration;
          router = some_router cfg.gateway r.router;
          dns = some_dns cfg.dns r.dns;
        }))
  ]

  unfoldable pub nak_reply : Request → Option Reply
  nak_reply req = elim (new_reply req) [
    | none ↦ none
    | some r ↦
        some (record r { message_type = some nak; server_identifier = some cfg.boot.server_ip })
  ]

  -- case DISCOVER
  pub on_discover : LeasePool → Request → Allocation → Option (Option Reply × LeasePool)
  on_discover p req (assigned ip q) = some (reply q req offer (v4 ip), q)
  on_discover p req exhausted = some (none, p)
  on_discover p req looping = none

  -- case REQUEST, the address is not the client's
  on_mismatch : LeasePool → Request → Allocation → Option (Option Reply × LeasePool)
  on_mismatch p req (assigned ip q) =
      if ip_equal (v4 ip) (asked_for req)
      then some (reply q req ack (v4 ip), q)
      else some (nak_reply req, q)
  on_mismatch p req exhausted = some (nak_reply req, p)
  on_mismatch p req looping = none

  -- case REQUEST, a renewal
  on_renewal : LeasePool → Request → Allocation → Option (Option Reply × LeasePool)
  on_renewal p req (assigned ip q) = some (reply q req ack (v4 ip), q)
  on_renewal p req exhausted = some (reply p req ack absent, p)
  on_renewal p req looping = none

  on_request : LeasePool → Request → Time → Bool → Option (Option Reply × LeasePool)
  on_request p req now false =
      on_mismatch p req (allocate rounds p req.client_hw_addr (asked_for req) req.host_name now)
  on_request p req now true =
      on_renewal p req (allocate rounds p req.client_hw_addr (asked_for req) req.host_name now)

  -- The `switch` on the message type.
  by_type : MessageType → LeasePool → Request → Time → Option (Option Reply × LeasePool)
  by_type discover p req now =
      on_discover p req (allocate rounds p req.client_hw_addr req.requested_ip req.host_name now)
  by_type request p req now =
      on_request p req now (confirm p req.client_hw_addr (asked_for req) now)
  by_type release p req now = some (none, release_lease p req.client_hw_addr)
  by_type decline p req now = some (none, release_lease p req.client_hw_addr)
  by_type _ p req now = some (none, p)

  by_op : OpCode → LeasePool → Request → Time → Option (Option Reply × LeasePool)
  by_op boot_request p req now = by_type req.message_type p req now
  by_op boot_reply p req now = some (none, p)

  unfoldable pub build_reply : LeasePool → Request → Time → Option (Option Reply × LeasePool)
  unfolding by_op by_type on_discover on_request on_mismatch on_renewal
  build_reply p req now = by_op req.op_code p req now
