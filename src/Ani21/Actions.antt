-- ===== src/Ani21/Actions.antt =====
-- The actions of ANIv21/_con.cpp that differ from those of ANIv41/_con.cpp: there is no mutex, there
-- are no links and no replies, and an LLDP frame is a text. Hello, echo and the branches of
-- `action_packout` for IPv6, ARP and IP are the same code, and so are show_hosts and show_ports.
use daim.Prelude.{ℕ, ◌+◌, Option, none, some, List, ◌==◌, leb, if◌then◌else◌}
use daim.Wire.Order.{htons, ntohs, be64toh}
use daim.Wire.Buffer.{get16, get64}
use daim.Wire.Ofp.{arp_data, ip_data, ip6_data, lldp_data}
use daim.Con.State.{Env, State, Ret, ret_neg1, ok, undefined, M, pure, ◌>>◌, send_buffer}
use daim.Con.Reply.{xid_of}
use daim.Con.Features.{port_count, rounds, show_ports, add_ports, send_config}
use daim.Con.PacketIn.{PacketIn, body, packet_in}
use daim.Con.Branches.{ip6_branch, arp_branch, ip_branch, last_test}
use daim.Ani21.Text.{text_message, text_at}

-- Where `node_share_func` stands: before it reads `*message`, or in its loop over the ports.
pub data TextPc : Type 0 where
  entry : TextPc
  sending : (portno ports_count datap : ℕ) → TextPc

-- What the branch for LLDP prints: the 1024 bytes that it copies have to lie in the 3072000 of
-- `read_buffer`, and to hold a zero.
unfoldable pub heard_text : State → PacketIn → Option (List ℕ)
heard_text s p = if leb (body p + 1024) 3072000 then text_at s.read_buffer (body p) 1024 else none

unfoldable pub text_branch : PacketIn → M (Unit {0})
text_branch p s = elim (heard_text s p) [ none ↦ undefined | some text ↦ ok tt s ]

module _ (e : Env) where
  -- `ports_count` and `datap` are read only once, and `goto send_anim` starts the loop again.
  unfoldable pub share_text : TextPc → M TextPc
  share_text entry = λ s. ok (sending 1 s.sw_in.no_of_ports s.sw_in.datapath_id) s
  share_text (sending portno ports_count datap) = λ s.
      if leb portno (rounds ports_count)
      then (let b = text_message datap (htons portno) in
          ok (sending (portno + 1) ports_count datap) (send_buffer e b (ntohs (get16 b 2)) s))
      else ok (sending 1 ports_count datap) s

  unfoldable pub action_features_reply : (of_buffer : ℕ) → M Ret
  action_features_reply of_buffer s =
      let n = port_count (ntohs (get16 s.read_buffer (of_buffer + 2))) in
      let id = be64toh (get64 s.read_buffer (of_buffer + 8)) in
      let s1 = record s { transaction_id = xid_of s of_buffer; no_of_ports = n } in
      if n == 0
      then ok ret_neg1 s1
      else (add_ports e (rounds n) of_buffer 0 >> show_ports >> send_config e) (record s1 {
        switch_id = id;
        sw_in = record { datapath_id = id; no_of_ports = n };
        threads = s.threads + 1;
      })

  unfoldable pub frame_action : PacketIn → M (Unit {0})
  frame_action p =
      if p.eth_type == ip6_data
      then ip6_branch e p
      else if p.eth_type == arp_data
      then arp_branch e p
      else if p.eth_type == ip_data
      then ip_branch e p
      else if p.eth_type == lldp_data
      then text_branch p
      else pure tt

  unfoldable pub action_packout : (of_buffer : ℕ) → M Ret
  action_packout of_buffer s =
      let p = packet_in s of_buffer in
      (frame_action p >> (λ s'. ok (last_test s') s')) (record s { transaction_id = p.xid })
