-- ===== src/Network/DhcpServer/Handshake.antt =====
-- The exchange DISCOVER, OFFER, REQUEST, ACK over backend/internal/network/dhcpserver.go.
use helboot.Prelude.{ℕ, ◌+◌, ◌≤◌, ◌<◌, String, ◌≡◌, sym, ap, ◌∙◌, true, some, arith}
use helboot.Time.{Time}
use helboot.Network.Ip.{v4, u32_mod}
use helboot.Network.LeasePool.{LeasePool, PoolLease, allocate, confirm, assign}
use helboot.Network.LeasePool.Invariant.{Inv}
use helboot.Network.LeasePool.Allocate.{lease, allocate-Granted, allocate_own}
use helboot.Network.Message.{boot_request, discover, offer, request, ack, Request, Reply, NewReply}
use helboot.Network.DhcpServer.{DhcpConfig, asked_for, on_discover, build_reply}
use helboot.Network.DhcpServer.Replies.{reply_fields, on_discover-offer, reply_total}

asked_for-requested :
    (req : Request) (n : ℕ) → req.requested_ip ≡ v4 n → 0 < n → asked_for req ≡ v4 n
unfolding asked_for
asked_for-requested req n h pos = ground arith

confirm_held :
    (p : LeasePool) (mac : String) (l : PoolLease) (now : Time)
    → p.by_mac mac ≡ some l
    → now ≤ l.expires
    → confirm p mac (v4 l.ip) now ≡ true
unfolding confirm
confirm_held p mac l now h t = ground arith

module _ (new_reply : NewReply) (rounds : ℕ) (cfg : DhcpConfig) where
  -- A REQUEST for the address of a lease that still runs is acknowledged with that address, and
  -- renews the lease, where the library builds a reply.
  pub build_reply_renews :
      (q : LeasePool) (req : Request) (now : Time) (l : PoolLease) (base : Reply)
      → req.op_code ≡ boot_request
      → req.message_type ≡ request
      → q.by_mac req.client_hw_addr ≡ some l
      → asked_for req ≡ v4 l.ip
      → now ≤ l.expires
      → new_reply req ≡ some base
      → (r : Reply) × (build_reply new_reply rounds cfg q req now
          ≡ some (some r, assign q req.client_hw_addr l.ip req.host_name now))
        × (r.message_type ≡ some ack)
        × (r.your_ip_addr ≡ v4 l.ip)
  unfolding build_reply
  build_reply_renews q req now l base op ty held asked fresh b =
      let q' = assign q req.client_hw_addr l.ip req.host_name now in
      let (r, e) = reply_total new_reply rounds cfg q' req ack (v4 l.ip) base b in
      let c : confirm q req.client_hw_addr (asked_for req) now ≡ true =
        rw asked (confirm_held q req.client_hw_addr l now held fresh) in
      let a = allocate_own rounds q req.client_hw_addr (asked_for req) req.host_name now l held in
      let fields = reply_fields new_reply rounds cfg q' req ack (v4 l.ip) r e in
      (r, ground arith, fields.0, fields.1)

  -- The handshake: after a DISCOVER that was answered by an offer, the REQUEST for the offered
  -- address, made by the same client before the lease runs out, is acknowledged with it. The range
  -- begins after 0.0.0.0 and ends before 255.255.255.255, and the library builds a reply.
  pub build_reply_handshake :
      (p q : LeasePool) (d req : Request) (now later : Time) (r base : Reply)
      → p.end + 1 < u32_mod
      → 0 < p.start
      → Inv p
      → d.op_code ≡ boot_request
      → d.message_type ≡ discover
      → build_reply new_reply rounds cfg p d now ≡ some (some r, q)
      → req.op_code ≡ boot_request
      → req.message_type ≡ request
      → req.client_hw_addr ≡ d.client_hw_addr
      → req.requested_ip ≡ r.your_ip_addr
      → later ≤ now + p.duration
      → new_reply req ≡ some base
      → (r.message_type ≡ some offer)
        × ((r' : Reply) × (q' : LeasePool) × (build_reply new_reply rounds cfg q req later
              ≡ some (some r', q'))
            × (r'.message_type ≡ some ack)
            × (r'.your_ip_addr ≡ r.your_ip_addr))
  unfolding build_reply
  build_reply_handshake p q d req now later r base w s v d_op d_type h r_op r_type same asked soon
        b =
      let a = allocate rounds p d.client_hw_addr d.requested_ip d.host_name now in
      let answered : on_discover new_reply rounds cfg p d a ≡ some (some r, q) = ground arith in
      let (offered, (ip, carried, given)) =
        on_discover-offer new_reply rounds cfg p q d r a answered in
      let (g, i) =
        allocate-Granted rounds p d.client_hw_addr d.requested_ip d.host_name now ip q w v given in
      let held : q.by_mac req.client_hw_addr ≡ some (lease d.client_hw_addr ip (now + p.duration)) =
        ap q.by_mac same ∙ g.mine in
      let want = asked_for-requested req ip (asked ∙ carried) (omega (arith, g.above)) in
      let (r', e, t, c) =
        build_reply_renews q req later (lease d.client_hw_addr ip (now + p.duration)) base r_op
          r_type held want soon b in
      (offered, (r', _, e, t, c ∙ sym carried))
