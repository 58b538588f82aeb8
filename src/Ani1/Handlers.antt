-- ===== src/Ani1/Handlers.antt =====
-- The actions of ANIv1/main.cpp. Version 1 declares a part of the globals of version 4.1 with the same
-- meaning (`hosts`, `ports`, the two buffers and their lengths, `transaction_id`, `switch_id` and
-- `sw_sockfd`), and works on the same `State`; what else that holds it neither reads nor writes.
use daim.Prelude.{ℕ, ◌+◌, ◌%◌, ◌^◌, Bool, ◌&&◌, Option, ◌∷◌, ◌==◌, ltb, leb, if◌then◌else◌}
use daim.Wire.Order.{htonl, ntohl, ntohs, be64toh}
use daim.Wire.Buffer.{Buffer, put8, put32, get16, get32, get64, bytes}
use daim.Wire.Ofp.{
  ofpt_features_request, ofpt_echo_reply, arp_data, ip_data, ip6_data, ip_type_icmp, ip_type_tcp,
  ip_type_udp, ip_proto_unknown,
}
use daim.Wire.Rule.{Match}
use daim.Con.State.{
  Env, State, SwitchHost, Ret, ret_0, ret_neg1, ok, undefined, M, pure, ◌>>=◌, ◌>>◌,
}
use daim.Con.Reply.{xid_of, after_send}
use daim.Con.Features.{port_count, rounds, show_ports, config_ret, add_ports}
use daim.Con.PacketIn.{
  PacketIn, body, packet_in, same_mac, broadcast, out_port_of, find_host, ip_rule, ports_rule,
}
use daim.Con.Branches.{learn, last_test}
use daim.Con.Dispatch.{length_at}
use daim.Ani1.Build.{packet_out_inline, flow_mod_inline, config_inline}

-- `memset` of `write_buffer`, and `memcpy` of the message at `of_buffer` with the length it states.
unfoldable pub message_copy : State → (of_buffer : ℕ) → Buffer
message_copy s of_buffer i =
    if ltb i (length_at s of_buffer) then s.read_buffer (of_buffer + i) else 0

-- Whether this `memcpy` stays within the 10240 bytes of `write_buffer` and the 3072000 of
-- `read_buffer`; neither is checked.
unfoldable pub copy_fits : State → (of_buffer : ℕ) → Bool
copy_fits s of_buffer =
    leb (length_at s of_buffer) 10240 && leb (of_buffer + length_at s of_buffer) 3072000

-- The packet headers that the branches read.
unfoldable pub arp_op_rule : State → PacketIn → Match
arp_op_rule s p = record {
  in_port = p.in_port;
  dl_src = p.src;
  dl_dst = p.dst;
  dl_type = arp_data;
  nw_proto = ntohs (get16 s.read_buffer (body p + 6)) % 256;
  nw_src = ntohl (get32 s.read_buffer (body p + 14));
  nw_dst = ntohl (get32 s.read_buffer (body p + 24));
  tp_src = 0;
  tp_dst = 0;
}

module _ (e : Env) where
  -- `write_buffer_len = send (sw_sockfd, write_buffer, n, 0)`.
  unfoldable pub send_bytes : (n : ℕ) → State → State
  send_bytes n s =
      let sent = bytes s.write_buffer 0 n ∷ s.sent in
      record s { sent = sent; write_buffer_len = e.send sent }

  unfoldable pub hello_back : (of_buffer : ℕ) → State → State
  hello_back of_buffer s =
      send_bytes (length_at s of_buffer)
        (record s { transaction_id = xid_of s of_buffer; write_buffer = message_copy s of_buffer })

  -- The copy of the hello becomes the features request.
  unfoldable pub request_features : State → State
  unfolding put8 put32
  request_features s =
      let xid = (s.transaction_id + 1) % 2 ^ 32 in
      let b = put32 (put8 s.write_buffer 1 ofpt_features_request) 4 (htonl xid) in
      send_bytes (ntohs (get16 b 2)) (record s { transaction_id = xid; write_buffer = b })

  unfoldable pub action_hello : (of_buffer : ℕ) → M Ret
  action_hello of_buffer s =
      if copy_fits s of_buffer
      then (let s1 = hello_back of_buffer s in
          let (r, s2) = after_send s1.write_buffer_len s1 λ s3.
            let s4 = request_features s3 in after_send s4.write_buffer_len s4 λ s5. (ret_0, s5) in
          ok r s2)
      else undefined

  unfoldable pub echo_back : (of_buffer : ℕ) → State → State
  unfolding put8
  echo_back of_buffer s =
      let b = put8 (message_copy s of_buffer) 1 ofpt_echo_reply in
      send_bytes (ntohs (get16 b 2)) (record s { write_buffer = b })

  unfoldable pub action_echo : (of_buffer : ℕ) → M Ret
  action_echo of_buffer s =
      if copy_fits s of_buffer
      then (let s1 = echo_back of_buffer s in
          let (r, s2) = after_send s1.write_buffer_len s1 λ s3. (ret_0, s3) in ok r s2)
      else undefined

  -- From `show_ports` on.
  unfoldable pub configure : M Ret
  configure s =
      let xid = (s.transaction_id + 1) % 2 ^ 32 in
      let s1 =
        send_bytes 12 (record s { write_buffer = config_inline xid; transaction_id = xid }) in
      ok (config_ret s1.write_buffer_len) s1

  -- `no_of_ports` is a local variable here.
  unfoldable pub action_features_reply : (of_buffer : ℕ) → M Ret
  action_features_reply of_buffer s =
      let s1 = record s { transaction_id = xid_of s of_buffer } in
      let n = port_count (ntohs (get16 s.read_buffer (of_buffer + 2))) in
      if n == 0
      then ok ret_neg1 s1
      else (add_ports e (rounds n) of_buffer 0 >> show_ports >> configure)
          (record s1 { switch_id = be64toh (get64 s.read_buffer (of_buffer + 8)) })

  unfoldable pub flood_packet : PacketIn → State → State
  flood_packet p s =
      send_bytes 24 (record s { write_buffer = packet_out_inline p.xid p.buffer_id p.in_port })

  -- A rule is sent whatever the port is, 0 where no host was found.
  unfoldable pub install : PacketIn → Match → Option SwitchHost → State → State
  install p m found s =
      send_bytes 80
        (record s { write_buffer = flow_mod_inline p.xid p.buffer_id m (out_port_of found) })

  unfoldable pub arp_frame : PacketIn → M (Unit {0})
  arp_frame p s0 =
      (do
        learn e p (ntohl (get32 s0.read_buffer (body p + 14)))
        if same_mac p.dst broadcast
            then (λ s. ok tt (flood_packet p s))
            else do found ← find_host p.dst; λ s. ok tt (install p (arp_op_rule s p) found s))
        s0

  unfoldable pub ip_packet : PacketIn → (proto : ℕ) → Option SwitchHost → State → State
  ip_packet p proto found s =
      if proto == ip_type_icmp
      then install p (ip_rule s p ip_type_icmp 0 0) found s
      else if proto == ip_type_tcp
      then install p (ports_rule s p ip_type_tcp) found s
      else if proto == ip_type_udp
      then install p (ports_rule s p ip_type_udp) found s
      else if proto == ip_proto_unknown
      then flood_packet p s
      else s

  unfoldable pub ip_frame : PacketIn → M (Unit {0})
  ip_frame p = do
    found ← find_host p.dst
    λ s. ok tt (ip_packet p (s.read_buffer (body p + 9)) found s)

  unfoldable pub by_eth_type : PacketIn → M (Unit {0})
  by_eth_type p =
      if p.eth_type == ip6_data
      then (λ s. ok tt (flood_packet p s))
      else if p.eth_type == arp_data
      then arp_frame p
      else if p.eth_type == ip_data
      then ip_frame p
      else pure tt

  unfoldable pub action_packout : (of_buffer : ℕ) → M Ret
  action_packout of_buffer s =
      let p = packet_in s of_buffer in
      (by_eth_type p >> (λ s'. ok (last_test s') s')) (record s { transaction_id = p.xid })
