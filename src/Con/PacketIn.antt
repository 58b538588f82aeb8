-- ===== src/Con/PacketIn.antt =====
-- `action_packout`: what the controller does with a packet that the switch sends up.
use daim.Prelude.{ℕ, ◌+◌, ◌%◌, Bool, false, ◌&&◌, Option, none, some, ◌==◌}
use daim.Wire.Order.{htons, ntohl, ntohs, be64toh}
use daim.Wire.Buffer.{Mac, get16, get32, get64, get_mac}
use daim.Wire.Ofp.{sizeof_ethernet, sizeof_anim_header, arp_data, ip_data}
use daim.Wire.Rule.{Match}
use daim.Table.Ops.{list_rewind}
use daim.Table.Loops.{find_object}
use daim.Con.State.{State, SwitchHost, SwitchLink, M, defined}
use daim.Con.Reply.{xid_of}

-- `memcmp (a, b, 6) == 0`.
unfoldable pub same_mac : Mac → Mac → Bool
same_mac a b =
    a.a0 == b.a0 && a.a1 == b.a1 && a.a2 == b.a2 && a.a3 == b.a3 && a.a4 == b.a4 && a.a5 == b.a5

abbrev pub broadcast : Mac
broadcast = record { a0 = 0xff; a1 = 0xff; a2 = 0xff; a3 = 0xff; a4 = 0xff; a5 = 0xff }

-- The local variables that the function reads from the packet at the offset `of_buffer`.
pub record PacketIn : Type 0 where
  pub of_buffer : ℕ
  pub xid : ℕ
  pub buffer_id : ℕ
  pub in_port : ℕ
  pub dst : Mac
  pub src : Mac
  pub eth_type : ℕ

-- The offsets of the frame and of what follows its Ethernet header.
abbrev pub frame : PacketIn → ℕ
frame p = p.of_buffer + 18

abbrev pub body : PacketIn → ℕ
body p = p.of_buffer + 18 + sizeof_ethernet

unfoldable pub packet_in : State → (of_buffer : ℕ) → PacketIn
packet_in s of_buffer = record {
  of_buffer = of_buffer;
  xid = xid_of s of_buffer;
  buffer_id = ntohl (get32 s.read_buffer (of_buffer + 8));
  in_port = ntohs (get16 s.read_buffer (of_buffer + 14));
  dst = get_mac s.read_buffer (of_buffer + 18);
  src = get_mac s.read_buffer (of_buffer + 24);
  eth_type = ntohs (get16 s.read_buffer (of_buffer + 30));
}

-- `hosts.list_rewind ()`, and the loop that looks for a host with this address.
unfoldable pub find_host : Mac → M (Option SwitchHost)
find_host mac s =
    defined (find_object (λ (h : SwitchHost). same_mac h.mac_addr mac) (list_rewind s.hosts))
      λ t. record s { hosts = t }

-- `out_port`: 0 where no host is found.
abbrev pub out_port_of : Option SwitchHost → ℕ
out_port_of none = 0
out_port_of (some h) = h.port_no

-- `show_hosts`: the loop goes on from where the cursor stands; what it prints is left out.
unfoldable pub show_hosts : M (Option SwitchHost)
show_hosts s = defined (find_object (λ _. false) s.hosts) λ t. record s { hosts = list_rewind t }

-- The rule for an ARP packet. `op` is a `uint8_t`, and so is the parameter for `htons (op)`, which
-- is the protocol field of the rule.
unfoldable pub arp_rule : State → PacketIn → Match
arp_rule s p = record {
  in_port = p.in_port;
  dl_src = p.src;
  dl_dst = p.dst;
  dl_type = arp_data;
  nw_proto = htons (ntohs (get16 s.read_buffer (body p + 6)) % 256) % 256;
  nw_src = ntohl (get32 s.read_buffer (body p + 14));
  nw_dst = ntohl (get32 s.read_buffer (body p + 24));
  tp_src = 0;
  tp_dst = 0;
}

-- The rule for an IP packet; `tp_src` and `tp_dst` are the ports of TCP and UDP.
unfoldable pub ip_rule : State → PacketIn → (proto tp_src tp_dst : ℕ) → Match
ip_rule s p proto tp_src tp_dst = record {
  in_port = p.in_port;
  dl_src = p.src;
  dl_dst = p.dst;
  dl_type = ip_data;
  nw_proto = proto;
  nw_src = ntohl (get32 s.read_buffer (body p + 12));
  nw_dst = ntohl (get32 s.read_buffer (body p + 16));
  tp_src = tp_src;
  tp_dst = tp_dst;
}

-- The ports are read behind a header of 20 bytes, whatever length the packet states.
unfoldable pub ports_rule : State → PacketIn → (proto : ℕ) → Match
ports_rule s p proto =
    ip_rule s p proto (ntohs (get16 s.read_buffer (body p + 20)))
      (ntohs (get16 s.read_buffer (body p + 22)))

-- The link that an `ANIM_NODE` message reports.
unfoldable pub link_of : State → PacketIn → SwitchLink
link_of s p =
    let o = body p + sizeof_anim_header in
    record {
      node_a = record { datapath_id = s.switch_id; port_no = p.in_port };
      node_b = record {
        datapath_id = be64toh (get64 s.read_buffer o);
        port_no = ntohs (get16 s.read_buffer (o + 8));
      };
    }
