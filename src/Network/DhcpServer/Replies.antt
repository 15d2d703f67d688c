-- ===== src/Network/DhcpServer/Replies.antt =====
-- What the replies of backend/internal/network/dhcpserver.go promise, over the pool's state.
use helboot.Prelude.{
  ℕ, ◌+◌, ◌≤◌, ◌<◌, String, ◌≡◌, refl, inl, inr, true, some, arith, Bool-cases, Option-cases, subst,
}
use helboot.Time.{Time}
use helboot.Network.Ip.{Ip, absent, v4, u32_mod, ip_equal}
use helboot.Network.LeasePool.{
  LeasePool, PoolLease, Allocation, assigned, exhausted, looping, allocate, confirm, assign,
}
use helboot.Network.LeasePool.Invariant.{Inv}
use helboot.Network.LeasePool.Allocate.{Granted, allocate-Granted, allocate_own}
use helboot.Network.Message.{
  MessageType, discover, offer, request, ack, nak, Request, Reply, NewReply,
}
use helboot.Network.Pxe.{apply_pxe_options}
use helboot.Network.DhcpServer.{
  DhcpConfig, asked_for, reply, nak_reply, on_discover, on_mismatch, on_renewal, on_request,
  by_type, build_reply,
}

module _ (new_reply : NewReply) (rounds : ℕ) (cfg : DhcpConfig) where
  -- The PXE options leave the address and the type of a reply alone.
  pub reply_fields :
      (p : LeasePool) (req : Request) (mt : MessageType) (ip : Ip) (r : Reply)
      → reply new_reply rounds cfg p req mt ip ≡ some r
      → (r.message_type ≡ some mt)
        × (r.your_ip_addr ≡ ip)
        × (r.lease_time ≡ some p.duration)
        × (r.server_identifier ≡ some cfg.boot.server_ip)
  unfolding reply apply_pxe_options
  reply_fields p req mt ip r h = ground arith

  nak_fields :
      (req : Request) (r : Reply)
      → nak_reply new_reply rounds cfg req ≡ some r
      → r.message_type ≡ some nak
  unfolding nak_reply
  nak_fields req r h = ground arith

  -- An acknowledgement of the address `ip`, which the pool now leases to the client.
  pub record Acked (p q : LeasePool) (req : Request) (now : Time) (r : Reply) (ip : ℕ)
      : Type 0 where
    pub asked : asked_for req ≡ v4 ip
    pub carried : r.your_ip_addr ≡ v4 ip
    pub granted : Granted p q req.client_hw_addr now ip
    pub maps : Inv q

  pub on_discover-offer :
      (p q : LeasePool) (req : Request) (r : Reply) (a : Allocation)
      → on_discover new_reply rounds cfg p req a ≡ some (some r, q)
      → (r.message_type ≡ some offer) × ((ip : ℕ) × (r.your_ip_addr ≡ v4 ip) × (a ≡ assigned ip q))
  unfolding on_discover
  on_discover-offer p q req r (assigned ip q') h = (
    ground (arith, reply_fields q' req offer (v4 ip) r),
    (ip, ground (arith, reply_fields q' req offer (v4 ip) r), ground arith),
  )
  on_discover-offer p q req r exhausted h = absurd (ground arith)
  on_discover-offer p q req r looping h = absurd (ground arith)

  equal-v4 : (ip : ℕ) (a : Ip) → ip_equal (v4 ip) a ≡ true → a ≡ v4 ip
  unfolding ip_equal
  equal-v4 ip (v4 n) h = ground arith
  equal-v4 ip absent h = absurd (ground arith)
  equal-v4 ip (Ip.v6 n) h = absurd (ground arith)

  confirm-true :
      (p : LeasePool) (mac : String) (a : Ip) (now : Time)
      → confirm p mac a now ≡ true
      → (l : PoolLease) × (p.by_mac mac ≡ some l) × (a ≡ v4 l.ip) × (now ≤ l.expires)
  unfolding confirm
  confirm-true p mac absent now h = absurd (ground arith)
  confirm-true p mac (Ip.v6 n) now h = absurd (ground arith)
  confirm-true p mac (v4 n) now h = elim (Option-cases (p.by_mac mac)) [
    | inl e ↦ absurd (ground arith)
    | inr (l, e) ↦ (l, e, ground arith, ground arith)
  ]

  module _ (p q : LeasePool) (req : Request) (now : Time) (r : Reply) (w : p.end + 1 < u32_mod)
      (v : Inv p) (t : r.message_type ≡ some ack) where
    on_mismatch-Acked :
        (a : Allocation)
        → allocate rounds p req.client_hw_addr (asked_for req) req.host_name now ≡ a
        → on_mismatch new_reply rounds cfg p req a ≡ some (some r, q)
        → (ip : ℕ) × Acked p q req now r ip
    unfolding on_mismatch
    on_mismatch-Acked (assigned ip q') e h =
        let (g, i) =
          allocate-Granted rounds p req.client_hw_addr (asked_for req) req.host_name now ip q' w v
            e in
        let same : ip_equal (v4 ip) (asked_for req) ≡ true = ground (arith, nak_fields req r) in
        let qq : q' ≡ q = ground arith in
        (
          ip,
          record {
            asked = equal-v4 ip (asked_for req) same;
            carried = ground (arith, reply_fields q' req ack (v4 ip) r);
            granted = subst (λ x. Granted p x req.client_hw_addr now ip) qq g;
            maps = subst Inv qq i;
          },
        )
    on_mismatch-Acked exhausted e h = absurd (ground (arith, nak_fields req r))
    on_mismatch-Acked looping e h = absurd (ground arith)

    on_renewal-Acked :
        confirm p req.client_hw_addr (asked_for req) now ≡ true
        → on_renewal new_reply rounds cfg p req
            (allocate rounds p req.client_hw_addr (asked_for req) req.host_name now)
          ≡ some (some r, q)
        → (ip : ℕ) × Acked p q req now r ip
    unfolding on_renewal
    on_renewal-Acked c h =
        let (l, held, same, fresh) = confirm-true p req.client_hw_addr (asked_for req) now c in
        let q' = assign p req.client_hw_addr l.ip req.host_name now in
        let e = allocate_own rounds p req.client_hw_addr (asked_for req) req.host_name now l held in
        let (g, i) =
          allocate-Granted rounds p req.client_hw_addr (asked_for req) req.host_name now l.ip q' w v
            e in
        let qq : q' ≡ q = ground (arith, e) in
        (
          l.ip,
          record {
            asked = same;
            carried = ground (arith, e, reply_fields q' req ack (v4 l.ip) r);
            granted = subst (λ x. Granted p x req.client_hw_addr now l.ip) qq g;
            maps = subst Inv qq i;
          },
        )

    by_type-Acked :
        (mt : MessageType)
        → by_type new_reply rounds cfg mt p req now ≡ some (some r, q)
        → (ip : ℕ) × Acked p q req now r ip
    unfolding by_type on_request
    by_type-Acked request h = elim (Bool-cases (confirm p req.client_hw_addr (asked_for req) now)) [
      | inl c ↦ on_renewal-Acked c (rw c at h)
      | inr c ↦ on_mismatch-Acked _ refl (rw c at h)
    ]
    by_type-Acked discover h = absurd (ground (arith, on_discover-offer p q req r _ h))
    by_type-Acked _ h = absurd (ground arith)

  -- A DHCPACK carries the address that the client asked for, and the pool then leases that address
  -- to the client for the full term, every other running lease kept. The range ends before
  -- 255.255.255.255.
  pub build_reply-Acked :
      (p q : LeasePool) (req : Request) (now : Time) (r : Reply)
      → p.end + 1 < u32_mod
      → Inv p
      → build_reply new_reply rounds cfg p req now ≡ some (some r, q)
      → r.message_type ≡ some ack
      → (ip : ℕ) × Acked p q req now r ip
  unfolding build_reply
  build_reply-Acked p q req now r w v h t =
      by_type-Acked p q req now r w v t req.message_type (ground arith)

  pub reply_total :
      (p : LeasePool) (req : Request) (mt : MessageType) (ip : Ip) (base : Reply)
      → new_reply req ≡ some base
      → (r : Reply) × (reply new_reply rounds cfg p req mt ip ≡ some r)
  unfolding reply
  reply_total p req mt ip base h = elim (Option-cases (reply new_reply rounds cfg p req mt ip)) [
    | inl e ↦ absurd (ground arith)
    | inr found ↦ found
  ]
