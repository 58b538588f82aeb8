-- ===== src/Con/Forwarding.antt =====
-- What `action_packout` sends for a frame: the decision it stands for, and its message.
use daim.Prelude.{
  ℕ, ◌+◌, ◌≡◌, refl, inl, inr, Bool, true, false, Option, List, [], ◌∷◌, ◌++◌, ◌==◌, if◌then◌else◌,
  Bool-cases,
}
use daim.Wire.Order.{ntohl}
use daim.Wire.Buffer.{get32}
use daim.Wire.Ofp.{ofpp_flood, ip_type_icmp, ip_type_tcp, ip_type_udp, ip_proto_unknown}
use daim.Wire.Rule.{Match}
use daim.Wire.Format.{packet_out_format, flow_mod_format}
use daim.Table.Ops.{Cursor, granted}
use daim.Con.State.{Env, State, SwitchHost, Message, Count, Ends}
use daim.Con.PacketIn.{
  PacketIn, body, same_mac, broadcast, out_port_of, arp_rule, ip_rule, ports_rule,
}
use daim.Con.Branches.{forward, arp_branch, ip_protocol, ip_branch}
use daim.Con.Hosts.{host_of, with_hosts, find_host_lem, sender, learned, learn_lem}
use daim.Con.Sending.{delivered, flood_buffer, flood_lem, rule_buffer, flow_mod_sent}

-- What becomes of a frame: nothing, or it leaves by every port, or by one, with a rule for the rest.
pub data Decision : Type 0 where
  ignore : Decision
  flood_all : Decision
  out_of : (m : Match) (port : ℕ) → Decision

-- The port of a host, where it is known and not 0.
abbrev pub route_by : Bool → Match → ℕ → Decision
route_by true m port = ignore
route_by false m port = out_of m port

abbrev pub route : Match → Option SwitchHost → Decision
route m host = route_by (out_port_of host == 0) m (out_port_of host)

-- The messages of a decision on the packet `p`.
abbrev pub message_of : PacketIn → Decision → List Message
message_of p ignore = []
message_of p flood_all = packet_out_format p.xid p.buffer_id p.in_port ofpp_flood ∷ []
message_of p (out_of m port) = flow_mod_format p.xid p.buffer_id 60 m port ∷ []

-- `write_buffer_len` is that of the last `send`, if there was one.
abbrev pub length_of : Env → Decision → (sent : List Message) → (before : Count) → Count
length_of e ignore sent before = before
length_of e flood_all sent before = e.send sent
length_of e (out_of m port) sent before = e.send sent

-- The outcome of a frame: the message of the decision is sent, and the host table is `hosts`.
pub record Handled (e : Env) (p : PacketIn) (d : Decision) (hosts : List SwitchHost) (s s' : State)
    : Type 0 where
  pub messages : s'.sent ≡ message_of p d ++ s.sent
  pub written : s'.write_buffer_len ≡ length_of e d (message_of p d ++ s.sent) s.write_buffer_len
  pub items : s'.hosts.items ≡ hosts
  pub whole : s'.hosts.broken ≡ false
  pub ports_same : s'.ports ≡ s.ports
  pub links_same : s'.links ≡ s.links
  pub replys_same : s'.sw_replys ≡ s.sw_replys
  pub mutex_same : s'.links_mutex ≡ s.links_mutex
  pub buffer_same : s'.read_buffer ≡ s.read_buffer

-- The state after the decision has been carried out.
abbrev pub carried_out : Env → PacketIn → Decision → State → State
carried_out e p ignore s = s
carried_out e p flood_all s =
    delivered e (packet_out_format p.xid p.buffer_id p.in_port ofpp_flood)
      (record s { write_buffer = flood_buffer p })
carried_out e p (out_of m port) s =
    delivered e (flow_mod_format p.xid p.buffer_id 60 m port)
      (record s { write_buffer = rule_buffer p m port })

-- The rule for an IP frame by its protocol, and what happens to other protocols.
abbrev pub decide_ip : State → PacketIn → (proto : ℕ) → Option SwitchHost → Decision
decide_ip s p proto host =
    if proto == ip_type_icmp
    then route (ip_rule s p ip_type_icmp 0 0) host
    else if proto == ip_type_tcp
    then route (ports_rule s p ip_type_tcp) host
    else if proto == ip_type_udp
    then route (ports_rule s p ip_type_udp) host
    else if proto == ip_proto_unknown
    then flood_all
    else ignore

-- An ARP frame is flooded if it is a broadcast.
abbrev pub decide_arp : State → PacketIn → List SwitchHost → Decision
decide_arp s p hosts =
    if same_mac p.dst broadcast then flood_all else route (arp_rule s p) (host_of p.dst hosts)

-- The table after an ARP packet.
abbrev pub arp_hosts : State → PacketIn → List SwitchHost
arp_hosts s p = learned s.hosts.items (sender s p (ntohl (get32 s.read_buffer (body p + 14))))

module _ (e : Env) where
  pub forward-route :
      (p : PacketIn) (m : Match) (host : Option SwitchHost) (s : State)
      → forward e p m host s ≡ carried_out e p (route m host) s
  unfolding forward
  forward-route p m host s = elim (Bool-cases (out_port_of host == 0)) [
    | inl z ↦ simp z
    | inr nz ↦ simp (nz, flow_mod_sent)
  ]

  ip_protocol-decide :
      (p : PacketIn) (proto : ℕ) (host : Option SwitchHost) (s : State)
      → ip_protocol e p proto host s ≡ carried_out e p (decide_ip s p proto host) s
  unfolding ip_protocol
  ip_protocol-decide p proto host s = elim (Bool-cases (proto == ip_type_icmp)) [
    | inl a ↦ simp a (forward-route p _ host s)
    | inr a ↦ elim (Bool-cases (proto == ip_type_tcp)) [
      | inl b ↦ simp (a, b) (forward-route p _ host s)
      | inr b ↦ elim (Bool-cases (proto == ip_type_udp)) [
        | inl c ↦ simp (a, b, c) (forward-route p _ host s)
        | inr c ↦ elim (Bool-cases (proto == ip_proto_unknown)) [
          | inl d ↦ simp (a, b, c, d) (flood_lem e p s)
          | inr d ↦ simp (a, b, c, d)
        ]
      ]
    ]
  ]

  pub carried_out-Handled :
      (p : PacketIn) (d : Decision) (s : State) (hosts : List SwitchHost) (c : Cursor) (a : ℕ)
      → Handled e p d hosts s (carried_out e p d (with_hosts s hosts c a))
  carried_out-Handled p ignore s hosts c a = record {
    messages = refl;
    written = refl;
    items = refl;
    whole = refl;
    ports_same = refl;
    links_same = refl;
    replys_same = refl;
    mutex_same = refl;
    buffer_same = refl;
  }
  carried_out-Handled p flood_all s hosts c a = record {
    messages = refl;
    written = refl;
    items = refl;
    whole = refl;
    ports_same = refl;
    links_same = refl;
    replys_same = refl;
    mutex_same = refl;
    buffer_same = refl;
  }
  carried_out-Handled p (out_of m port) s hosts c a = record {
    messages = refl;
    written = refl;
    items = refl;
    whole = refl;
    ports_same = refl;
    links_same = refl;
    replys_same = refl;
    mutex_same = refl;
    buffer_same = refl;
  }

  pub ip_branch-Handled :
      (p : PacketIn) (s : State)
      → s.hosts.broken ≡ false
      → Ends
          (λ _ s'.
            Handled e p
              (decide_ip s p (s.read_buffer (body p + 9)) (host_of p.dst s.hosts.items))
              s.hosts.items
              s
              s')
          (ip_branch e p s)
  unfolding ip_branch ip_rule ports_rule
  ip_branch-Handled p s whole =
      let (c, ran, _) = find_host_lem p.dst s whole in
      simp (ran, ip_protocol-decide)
        (carried_out-Handled p
          (decide_ip s p (s.read_buffer (body p + 9)) (host_of p.dst s.hosts.items)) s s.hosts.items
          c s.allocations)

  pub arp_branch-Handled :
      (p : PacketIn) (s : State)
      → ((k : ℕ) → e.grant k ≡ granted)
      → s.hosts.broken ≡ false
      → Ends
          (λ _ s'. Handled e p (decide_arp s p (arp_hosts s p)) (arp_hosts s p) s s')
          (arp_branch e p s)
  unfolding arp_branch arp_rule
  arp_branch-Handled p s grants whole =
      let (o, c, a, ran) =
        learn_lem e p (ntohl (get32 s.read_buffer (body p + 14))) s grants whole in
      elim (Bool-cases (same_mac p.dst broadcast)) [
        | inl all ↦
            simp (ran, all, flood_lem) (carried_out-Handled p flood_all s (arp_hosts s p) c a)
        | inr one ↦
            let (c', ran', _) = find_host_lem p.dst (with_hosts s (arp_hosts s p) c a) refl in
            simp (ran, one, ran', forward-route)
              (carried_out-Handled p (route (arp_rule s p) (host_of p.dst (arp_hosts s p))) s
                (arp_hosts s p) c' a)
      ]
