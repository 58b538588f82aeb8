-- ===== src/Ani1/Managed.antt =====
-- `action_packout` of ANIv1/main.cpp where `add_object` may fail: what stays of the tables.
use daim.Prelude.{ℕ, ◌+◌, ◌≡◌, refl, inl, inr, false, ◌==◌, Bool-cases}
use daim.Wire.Order.{ntohl}
use daim.Wire.Buffer.{get32}
use daim.Wire.Ofp.{arp_data, ip_data, ip6_data}
use daim.Con.State.{Env, State, Ends}
use daim.Con.PacketIn.{PacketIn, body, packet_in, same_mac, broadcast}
use daim.Con.Branches.{last_test}
use daim.Con.Hosts.{host_of, with_hosts, find_host_lem, sender}
use daim.Con.Learning.{Distinct}
use daim.Con.Forwarding.{ignore, flood_all}
use daim.Con.Packet.{after_frame, Handled-xid, unchanged-Handled}
use daim.Con.Spared.{Spared, learn-spared}
use daim.Con.Managed.{Managed, learned_or_not, same_hosts}
use daim.Ani1.Handlers.{arp_op_rule, arp_frame, ip_frame, by_eth_type, action_packout}
use daim.Ani1.Sending.{flood_packet_lem, install_lem}
use daim.Ani1.Packet.{
  rule_to, flooded-Handled, installed-Handled, flood_packet-Handled, ip_frame-Handled,
}

module _ (e : Env) (spared : Spared e) where
  arp_frame-Managed :
      (p : PacketIn) (s : State)
      → s.hosts.broken ≡ false
      → Distinct s.hosts.items
      → Ends (λ _ s'. Managed e p s s') (arp_frame e p s)
  unfolding arp_frame arp_op_rule
  arp_frame-Managed p s whole distinct =
      let ip : ℕ = ntohl (get32 s.read_buffer (body p + 14)) in
      let (o, hosts, c, a, ran, which) = learn-spared e spared p ip s whole in
      let d = learned_or_not s.hosts.items hosts (sender s p ip) which distinct in
      elim (Bool-cases (same_mac p.dst broadcast)) [
        | inl all ↦
            simp (ran, all, flood_packet_lem)
              (flood_all, hosts, flooded-Handled e p s hosts c a _, d)
        | inr one ↦
            let (c', ran', _) = find_host_lem p.dst (with_hosts s hosts c a) refl in
            simp (ran, one, ran', install_lem)
              (
                rule_to (arp_op_rule s p) (host_of p.dst hosts),
                hosts,
                installed-Handled e p s hosts c' a _ _ _,
                d,
              )
      ]

  by_eth_type-Managed :
      (p : PacketIn) (s : State)
      → s.hosts.broken ≡ false
      → Distinct s.hosts.items
      → Ends (λ _ s'. Managed e p s s') (by_eth_type e p s)
  unfolding by_eth_type
  by_eth_type-Managed p s whole distinct = elim (Bool-cases (p.eth_type == ip6_data)) [
    | inl x ↦ simp x (flood_all, s.hosts.items, flood_packet-Handled e p s whole, distinct)
    | inr x ↦ elim (Bool-cases (p.eth_type == arp_data)) [
      | inl y ↦ simp (x, y) (arp_frame-Managed p s whole distinct)
      | inr y ↦ elim (Bool-cases (p.eth_type == ip_data)) [
        | inl z ↦
            simp (x, y, z)
              (same_hosts e p _ s distinct (ip_frame e p s) (ip_frame-Handled e p s whole))
        | inr z ↦ simp (x, y, z) (ignore, s.hosts.items, unchanged-Handled e p s whole, distinct)
      ]
    ]
  ]

  pub action_packout-Managed :
      (of_buffer : ℕ) (s : State)
      → s.hosts.broken ≡ false
      → Distinct s.hosts.items
      → Ends
          (λ r s'. (r ≡ last_test s') × Managed e (packet_in s of_buffer) s s')
          (action_packout e of_buffer s)
  unfolding action_packout
  action_packout-Managed of_buffer s whole distinct =
      let p : PacketIn = packet_in s of_buffer in
      let s1 : State = record s { transaction_id = p.xid } in
      after_frame (Managed e p s1) (Managed e p s)
        (λ s' (d, hosts, h, distinct'). (d, hosts, Handled-xid e p d hosts s p.xid s' h, distinct'))
        (by_eth_type e p s1) (by_eth_type-Managed p s1 whole distinct)
