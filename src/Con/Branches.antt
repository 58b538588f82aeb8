-- ===== src/Con/Branches.antt =====
-- `action_packout`: the branches for the frames that the switch sends up.
use daim.Prelude.{ℕ, ◌+◌, Bool, true, Option, none, some, ◌==◌, if◌then◌else◌}
use daim.Wire.Order.{htonl, htons, ntohl, ntohs}
use daim.Wire.Buffer.{zeros, get16, get32}
use daim.Wire.Ofp.{
  sizeof_action_output, sizeof_packet_out, ofpp_flood, arp_data, ip_data, ip6_data, lldp_data,
  ip_type_icmp, ip_type_tcp, ip_type_udp, ip_proto_unknown, anim_echo_request, anim_echo_reply,
  anim_node,
}
use daim.Wire.Build.{create_of_packet_out, create_of_flow_mod, create_of_action_output}
use daim.Wire.Rule.{Match, add_rule}
use daim.Wire.Anim.{echo_buffer}
use daim.Table.Ops
use daim.Table.Ops.{Table, list_rewind}
use daim.Con.State.{
  Env, State, SwitchHost, SwitchReply, SwitchLink, Count, error, bytes_done, Ret, ret_neg1,
  no_return, ok, M, pure, ◌>>=◌, ◌>>◌, defined, lock, unlock, send_write_buffer, send_buffer,
}
use daim.Con.PacketIn.{
  PacketIn, body, packet_in, same_mac, broadcast, out_port_of, find_host, show_hosts, arp_rule,
  ip_rule, ports_rule, link_of,
}

-- The last test of the function: it returns -1, or ends with no `return`.
abbrev pub last_ret : Count → Ret
last_ret error = ret_neg1
last_ret (bytes_done n) = no_return

abbrev pub last_test : State → Ret
last_test s = last_ret s.write_buffer_len

module _ (e : Env) where
  -- A packet-out that floods the buffered packet.
  unfoldable pub flood : PacketIn → State → State
  flood p s = send_write_buffer e (record s {
    write_buffer =
        create_of_action_output
          (create_of_packet_out zeros (htonl p.xid) (htonl p.buffer_id) (htons p.in_port)
            sizeof_action_output 0)
          sizeof_packet_out (htons 0) (htons ofpp_flood);
  })

  -- A flow-mod for the rule `m`, with one output action.
  unfoldable pub flow_mod : PacketIn → Match → (out_port : ℕ) → State → State
  flow_mod p m out_port s = send_write_buffer e (record s {
    write_buffer =
        create_of_action_output (create_of_flow_mod zeros (add_rule p.xid p.buffer_id 60 m)) 72
          (htons 0) (htons out_port);
  })

  unfoldable pub add_host : SwitchHost → M Bool
  add_host h s =
      defined (Ops.add_object (e.grant s.allocations) h s.hosts)
        λ t. record s { hosts = t; allocations = s.allocations + 1 }

  -- The first half of the ARP branch: a host with a new source address enters the table.
  unfoldable pub learn : PacketIn → (ip_src : ℕ) → M (Option SwitchHost)
  learn p ip_src = do
    known ← find_host p.src
    elim known [
      | some h ↦ pure none
      | none ↦ λ s.
          (add_host (record {
            datapath_id = s.switch_id;
            port_no = p.in_port;
            mac_addr = p.src;
            ip_addr = ip_src;
          })
              >> show_hosts)
            s
    ]

  -- `if (out_port != 0)`, with what the function sends to the switch then.
  unfoldable pub forward : PacketIn → Match → Option SwitchHost → State → State
  forward p m found s =
      let out_port = out_port_of found in if out_port == 0 then s else flow_mod p m out_port s

  unfoldable pub arp_branch : PacketIn → M (Unit {0})
  arp_branch p s0 =
      (do
        learn p (ntohl (get32 s0.read_buffer (body p + 14)))
        if same_mac p.dst broadcast
            then (λ s. ok tt (flood p s))
            else do found ← find_host p.dst; λ s. ok tt (forward p (arp_rule s p) found s))
        s0

  unfoldable pub ip_protocol : PacketIn → (proto : ℕ) → Option SwitchHost → State → State
  ip_protocol p proto found s =
      if proto == ip_type_icmp
      then forward p (ip_rule s p ip_type_icmp 0 0) found s
      else if proto == ip_type_tcp
      then forward p (ports_rule s p ip_type_tcp) found s
      else if proto == ip_type_udp
      then forward p (ports_rule s p ip_type_udp) found s
      else if proto == ip_proto_unknown
      then flood p s
      else s

  unfoldable pub ip_branch : PacketIn → M (Unit {0})
  ip_branch p = do
    found ← find_host p.dst
    λ s. ok tt (ip_protocol p (s.read_buffer (body p + 9)) found s)

  -- The reply goes out of the port on which the request came in.
  unfoldable pub send_echo : PacketIn → State → State
  send_echo p s =
      let b = echo_buffer anim_echo_reply (htons p.in_port) in send_buffer e b (ntohs (get16 b 2)) s

  unfoldable pub add_reply : SwitchReply → M Bool
  add_reply r s =
      defined (Ops.add_object (e.grant s.allocations) r s.sw_replys)
        λ t. record s { sw_replys = t; allocations = s.allocations + 1 }

  unfoldable pub add_link : SwitchLink → M Bool
  add_link l s =
      defined (Ops.add_object (e.grant s.allocations) l s.links)
        λ t. record s { links = t; allocations = s.allocations + 1 }

  unfoldable pub anim_message : PacketIn → (kind : ℕ) → M (Unit {0})
  anim_message p kind =
      if kind == anim_echo_request
      then (λ s. ok tt (send_echo p s))
      else if kind == anim_echo_reply
      then (add_reply (record { port_no = p.in_port; rec = true }) >> pure tt)
      else if kind == anim_node
      then (λ s. (add_link (link_of s p) >> (λ s'. ok tt (record s' { anim_node_counter = 0 }))) s)
      else pure tt

  unfoldable pub lldp_branch : PacketIn → M (Unit {0})
  lldp_branch p = do lock; (λ s. anim_message p (s.read_buffer (body p)) s); unlock

  unfoldable pub ip6_branch : PacketIn → M (Unit {0})
  ip6_branch p s = ok tt (if s.cbench then flood p s else s)

  unfoldable pub frame_branch : PacketIn → M (Unit {0})
  frame_branch p =
      if p.eth_type == ip6_data
      then ip6_branch p
      else if p.eth_type == arp_data
      then arp_branch p
      else if p.eth_type == ip_data
      then ip_branch p
      else if p.eth_type == lldp_data
      then lldp_branch p
      else pure tt

  unfoldable pub action_packout : (of_buffer : ℕ) → M Ret
  action_packout of_buffer s =
      let p = packet_in s of_buffer in
      (frame_branch p >> (λ s'. ok (last_test s') s')) (record s { transaction_id = p.xid })
