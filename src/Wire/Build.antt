-- ===== src/Wire/Build.antt =====
-- The message builders of ANIv41/com.cpp (the same file as ANIv21/com.cpp), over a buffer. An
-- argument is a word as it lies in memory: the callers have put it in network order.
use daim.Prelude.{ℕ, ◌+◌}
use daim.Wire.Order.{htons}
use daim.Wire.Buffer.{Buffer, Mac, put8, put16, put32, put64, put_mac}
use daim.Wire.Ofp.{
  ofp_version, ofpt_hello, ofpt_echo_reply, ofpt_features_request, ofpt_set_config, ofpt_packet_out,
  ofpt_flow_mod, ofpat_output, sizeof_header, sizeof_switch_config, sizeof_packet_out,
  sizeof_flow_mod,
}

-- The four stores to a `struct ofp_header` with which each builder begins.
unfoldable pub put_header : Buffer → (kind xid len : ℕ) → Buffer
unfolding put8 put16 put32 htons
put_header b kind xid len = put16 (put32 (put8 (put8 b 0 ofp_version) 1 kind) 4 xid) 2 (htons len)

unfoldable pub create_of_hello : Buffer → (transaction_id : ℕ) → Buffer
unfolding put_header
create_of_hello packet transaction_id = put_header packet ofpt_hello transaction_id sizeof_header

unfoldable pub create_of_echo_reply : Buffer → (transaction_id : ℕ) → Buffer
unfolding put_header
create_of_echo_reply packet transaction_id =
    put_header packet ofpt_echo_reply transaction_id sizeof_header

unfoldable pub create_of_features_request : Buffer → (transaction_id : ℕ) → Buffer
unfolding put_header
create_of_features_request packet transaction_id =
    put_header packet ofpt_features_request transaction_id sizeof_header

unfoldable pub create_of_switch_config : Buffer → (transaction_id flags miss_send_len : ℕ) → Buffer
unfolding put_header put16
create_of_switch_config packet transaction_id flags miss_send_len =
    let b = put_header packet ofpt_set_config transaction_id sizeof_switch_config in
    put16 (put16 b 8 flags) 10 miss_send_len

unfoldable pub create_of_packet_out :
    Buffer → (transaction_id buffer_id input_port actions_length data_length : ℕ) → Buffer
unfolding put_header put16 put32
create_of_packet_out packet transaction_id buffer_id input_port actions_length data_length =
    let len = sizeof_packet_out + actions_length + data_length in
    let b = put_header packet ofpt_packet_out transaction_id len in
    put16 (put16 (put32 b 8 buffer_id) 12 input_port) 14 (htons actions_length)

-- The arguments of `create_of_flow_mod` but for the packet.
pub record FlowMod : Type 0 where
  pub transaction_id : ℕ
  pub input_port : ℕ
  pub out_port : ℕ
  pub buffer_id : ℕ
  pub command : ℕ
  pub cookie : ℕ
  pub flags : ℕ
  pub hard_timeout : ℕ
  pub idle_timeout : ℕ
  pub priority : ℕ
  pub wildcards : ℕ
  pub ip_addr_src : ℕ
  pub ip_addr_dst : ℕ
  pub ip_port_src : ℕ
  pub ip_port_dst : ℕ
  pub ip_protocol : ℕ
  pub ip_tos : ℕ
  pub vlan : ℕ
  pub vlan_priority : ℕ
  pub eth_src : Mac
  pub eth_dst : Mac
  pub eth_type : ℕ
  pub acts_length : ℕ

-- The stores to the `match` of the message, which begins at offset 8.
unfoldable pub put_match : Buffer → FlowMod → Buffer
unfolding put8 put16 put32 put_mac
put_match b0 f =
    let b1 = put16 b0 12 f.input_port in
    let b2 = put32 b1 8 f.wildcards in
    let b3 = put8 b2 33 f.ip_protocol in
    let b4 = put_mac b3 14 f.eth_src in
    let b5 = put_mac b4 20 f.eth_dst in
    let b6 = put8 (put8 (put8 b5 29 0) 34 0) 35 0 in
    let b7 = put16 b6 30 f.eth_type in
    let b8 = put32 b7 36 f.ip_addr_src in
    let b9 = put32 b8 40 f.ip_addr_dst in
    let b10 = put8 b9 32 f.ip_tos in
    let b11 = put16 b10 44 f.ip_port_src in
    let b12 = put16 b11 46 f.ip_port_dst in
    let b13 = put16 b12 26 f.vlan in put8 b13 28 f.vlan_priority

unfoldable pub create_of_flow_mod : Buffer → FlowMod → Buffer
unfolding put_header put_match put16 put32 put64
create_of_flow_mod packet f =
    let b0 = put_header packet ofpt_flow_mod f.transaction_id (sizeof_flow_mod + f.acts_length) in
    let b1 = put_match b0 f in
    let b2 = put16 b1 68 f.out_port in
    let b3 = put32 b2 64 f.buffer_id in
    let b4 = put16 b3 56 f.command in
    let b5 = put64 b4 48 f.cookie in
    let b6 = put16 b5 70 f.flags in
    let b7 = put16 b6 60 f.hard_timeout in
    let b8 = put16 b7 58 f.idle_timeout in put16 b8 62 f.priority

-- `packet` is the offset of the `struct ofp_action_output`.
unfoldable pub create_of_action_output : Buffer → (packet max_len out_port : ℕ) → Buffer
unfolding put16 htons
create_of_action_output b packet max_len out_port =
    let b1 = put16 b packet (htons ofpat_output) in
    let b2 = put16 b1 (packet + 2) (htons 8) in
    let b3 = put16 b2 (packet + 6) max_len in put16 b3 (packet + 4) out_port
