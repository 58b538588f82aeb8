-- ===== src/Ani1/Packet.antt =====
-- What `action_packout` of ANIv1/main.cpp does with every frame.
use daim.Prelude.{ℕ, ◌+◌, ◌≡◌, refl, inl, inr, false, Option, List, ◌==◌, if◌then◌else◌, Bool-cases}
use daim.Wire.Order.{ntohl}
use daim.Wire.Buffer.{Buffer, get32}
use daim.Wire.Ofp.{
  ofpp_flood, arp_data, ip_data, ip6_data, ip_type_icmp, ip_type_tcp, ip_type_udp, ip_proto_unknown,
}
use daim.Wire.Rule.{Match}
use daim.Wire.Format.{packet_out_format, flow_mod_format}
use daim.Table.Ops.{Cursor, granted}
use daim.Con.State.{Env, State, SwitchHost, Ends}
use daim.Con.PacketIn.{
  PacketIn, body, packet_in, same_mac, broadcast, out_port_of, ip_rule, ports_rule,
}
use daim.Con.Branches.{last_test}
use daim.Con.Hosts.{host_of, with_hosts, find_host_lem, learn_lem}
use daim.Con.Sending.{delivered}
use daim.Con.Forwarding.{
  Decision, ignore, flood_all, out_of, Handled, arp_hosts, carried_out-Handled,
}
use daim.Con.Packet.{hosts_after, after_frame, Handled-xid, unchanged-Handled}
use daim.Ani1.Handlers.{
  flood_packet, arp_op_rule, arp_frame, ip_packet, ip_frame, by_eth_type, action_packout,
}
use daim.Ani1.Sending.{flood_packet_lem, install_lem}

-- A rule for every unicast frame: towards the port of the host, or the port 0.
abbrev pub rule_to : Match → Option SwitchHost → Decision
rule_to m host = out_of m (out_port_of host)

abbrev pub decision_ip : State → PacketIn → (proto : ℕ) → Option SwitchHost → Decision
decision_ip s p proto host =
    if proto == ip_type_icmp
    then rule_to (ip_rule s p ip_type_icmp 0 0) host
    else if proto == ip_type_tcp
    then rule_to (ports_rule s p ip_type_tcp) host
    else if proto == ip_type_udp
    then rule_to (ports_rule s p ip_type_udp) host
    else if proto == ip_proto_unknown
    then flood_all
    else ignore

abbrev pub decision_arp : State → PacketIn → List SwitchHost → Decision
decision_arp s p hosts =
    if same_mac p.dst broadcast then flood_all else rule_to (arp_op_rule s p) (host_of p.dst hosts)

-- The decision of version 1 on a frame.
abbrev pub decision : State → PacketIn → Decision
decision s p =
    if p.eth_type == ip6_data
    then flood_all
    else if p.eth_type == arp_data
    then decision_arp s p (arp_hosts s p)
    else if p.eth_type == ip_data
    then decision_ip s p (s.read_buffer (body p + 9)) (host_of p.dst s.hosts.items)
    else ignore

module _ (e : Env) (p : PacketIn) (s : State) (hosts : List SwitchHost) (c : Cursor) (a : ℕ) where
  pub flooded-Handled :
      (b : Buffer)
      → Handled e p flood_all hosts s (
          delivered e
            (packet_out_format p.xid p.buffer_id p.in_port ofpp_flood)
            (record (with_hosts s hosts c a) { write_buffer = b }))
  flooded-Handled b = record {
    messages = refl;
    written = refl;
    items = refl;
    whole = refl;
    ports_same = refl;
    links_same = refl;
    replys_same = refl;
    mutex_same = refl;
    buffer_same = refl;
  }

  pub installed-Handled :
      (m : Match) (port : ℕ) (b : Buffer)
      → Handled e p (out_of m port) hosts s (
          delivered e
            (flow_mod_format p.xid p.buffer_id 60 m port)
            (record (with_hosts s hosts c a) { write_buffer = b }))
  installed-Handled m port b = record {
    messages = refl;
    written = refl;
    items = refl;
    whole = refl;
    ports_same = refl;
    links_same = refl;
    replys_same = refl;
    mutex_same = refl;
    buffer_same = refl;
  }

  ip_packet-Handled :
      (proto : ℕ) (host : Option SwitchHost)
      → Handled e p
          (decision_ip s p proto host)
          hosts
          s
          (ip_packet e p proto host (with_hosts s hosts c a))
  unfolding ip_packet ip_rule ports_rule
  ip_packet-Handled proto host = elim (Bool-cases (proto == ip_type_icmp)) [
    | inl x ↦ simp (x, install_lem) (installed-Handled _ _ _)
    | inr x ↦ elim (Bool-cases (proto == ip_type_tcp)) [
      | inl y ↦ simp (x, y, install_lem) (installed-Handled _ _ _)
      | inr y ↦ elim (Bool-cases (proto == ip_type_udp)) [
        | inl z ↦ simp (x, y, z, install_lem) (installed-Handled _ _ _)
        | inr z ↦ elim (Bool-cases (proto == ip_proto_unknown)) [
          | inl w ↦ simp (x, y, z, w, flood_packet_lem) (flooded-Handled _)
          | inr w ↦ simp (x, y, z, w) (carried_out-Handled e p ignore s hosts c a)
        ]
      ]
    ]
  ]

module _ (e : Env) where
  pub ip_frame-Handled :
      (p : PacketIn) (s : State)
      → s.hosts.broken ≡ false
      → Ends
          (λ _ s'.
            Handled e p
              (decision_ip s p (s.read_buffer (body p + 9)) (host_of p.dst s.hosts.items))
              s.hosts.items
              s
              s')
          (ip_frame e p s)
  unfolding ip_frame
  ip_frame-Handled p s whole =
      let (c, ran, _) = find_host_lem p.dst s whole in
      simp ran (
        ip_packet-Handled e p s s.hosts.items c s.allocations (s.read_buffer (body p + 9))
          (host_of p.dst s.hosts.items))

  arp_frame-Handled :
      (p : PacketIn) (s : State)
      → ((k : ℕ) → e.grant k ≡ granted)
      → s.hosts.broken ≡ false
      → Ends
          (λ _ s'. Handled e p (decision_arp s p (arp_hosts s p)) (arp_hosts s p) s s')
          (arp_frame e p s)
  unfolding arp_frame arp_op_rule
  arp_frame-Handled p s grants whole =
      let (o, c, a, ran) =
        learn_lem e p (ntohl (get32 s.read_buffer (body p + 14))) s grants whole in
      elim (Bool-cases (same_mac p.dst broadcast)) [
        | inl all ↦ simp (ran, all, flood_packet_lem) (flooded-Handled e p s (arp_hosts s p) c a _)
        | inr one ↦
            let (c', ran', _) = find_host_lem p.dst (with_hosts s (arp_hosts s p) c a) refl in
            simp (ran, one, ran', install_lem) (installed-Handled e p s (arp_hosts s p) c' a _ _ _)
      ]

  pub flood_packet-Handled :
      (p : PacketIn) (s : State)
      → s.hosts.broken ≡ false
      → Handled e p flood_all s.hosts.items s (flood_packet e p s)
  flood_packet-Handled p s whole = simp flood_packet_lem (record {
    messages = refl;
    written = refl;
    items = refl;
    whole = whole;
    ports_same = refl;
    links_same = refl;
    replys_same = refl;
    mutex_same = refl;
    buffer_same = refl;
  })

  by_eth_type-Handled :
      (p : PacketIn) (s : State)
      → ((k : ℕ) → e.grant k ≡ granted)
      → s.hosts.broken ≡ false
      → Ends (λ _ s'. Handled e p (decision s p) (hosts_after s p) s s') (by_eth_type e p s)
  unfolding by_eth_type
  by_eth_type-Handled p s grants whole = elim (Bool-cases (p.eth_type == ip6_data)) [
    | inl x ↦ simp x (flood_packet-Handled p s whole)
    | inr x ↦ elim (Bool-cases (p.eth_type == arp_data)) [
      | inl y ↦ simp (x, y) (arp_frame-Handled p s grants whole)
      | inr y ↦ elim (Bool-cases (p.eth_type == ip_data)) [
        | inl z ↦ simp (x, y, z) (ip_frame-Handled p s whole)
        | inr z ↦ simp (x, y, z) (unchanged-Handled e p s whole)
      ]
    ]
  ]

  -- With every allocation granted and a whole host table, `action_packout` of version 1 comes to its
  -- end on every frame and does what `decision` says: an IPv6 frame, an ARP broadcast and an IP packet
  -- of the protocol 255 are flooded; a unicast ARP frame, and an ICMP, TCP or UDP packet, is always
  -- answered by a flow rule, towards the port 0 where no host has its destination address; all else is
  -- ignored. An ARP frame enters its sender into the host table. The messages are in the wire format,
  -- the other tables and the buffer stay, and the function returns -1 only by its last test.
  pub action_packout-decision :
      (of_buffer : ℕ) (s : State)
      → ((k : ℕ) → e.grant k ≡ granted)
      → s.hosts.broken ≡ false
      → Ends
          (λ r s'.
            (r ≡ last_test s')
            × Handled e
                (packet_in s of_buffer)
                (decision s (packet_in s of_buffer))
                (hosts_after s (packet_in s of_buffer))
                s
                s')
          (action_packout e of_buffer s)
  unfolding action_packout arp_op_rule ip_rule ports_rule
  action_packout-decision of_buffer s grants whole =
      let p : PacketIn = packet_in s of_buffer in
      let s1 : State = record s { transaction_id = p.xid } in
      after_frame _ _ (λ s'. Handled-xid e p (decision s p) (hosts_after s p) s p.xid s')
        (by_eth_type e p s1) (by_eth_type-Handled p s1 grants whole)
