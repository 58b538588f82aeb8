-- ===== src/Ani1/Build.antt =====
-- The messages that `action_packout` and `action_features_reply` of ANIv1/main.cpp put together in
-- place, store by store.
use daim.Prelude.{ℕ, ◌+◌, ◌≡◌}
use daim.Wire.Order.{htons, htonl, htobe64, network_bytes}
use daim.Wire.Buffer.{Buffer, zeros, put8, put16, put32, put64, put_mac, bytes}
use daim.Wire.Ofp.{
  ofpt_set_config, ofpt_packet_out, ofpt_flow_mod, ofpat_output, ofpfc_add, sizeof_switch_config,
  sizeof_packet_out, sizeof_flow_mod, sizeof_action_output,
}
use daim.Wire.Rule.{Match}
use daim.Wire.Format.{packet_out_format, flow_mod_format, config_format}

-- The packet-out that the function sends to flood a buffered packet.
unfoldable pub packet_out_inline : (transaction_id buffer_id in_port : ℕ) → Buffer
unfolding put8 put16 put32
packet_out_inline transaction_id buffer_id in_port =
    let b1 = put8 (put8 zeros 0 1) 1 ofpt_packet_out in
    let b2 = put32 (put32 b1 4 (htonl transaction_id)) 8 (htonl buffer_id) in
    let b3 = put16 (put16 b2 12 (htons in_port)) 14 (htons sizeof_action_output) in
    let b4 = put16 (put16 b3 16 (htons ofpat_output)) 22 (htons 0) in
    let b5 = put16 (put16 b4 18 (htons 8)) 20 (htons 65531) in
    put16 b5 2 (htons (sizeof_packet_out + sizeof_action_output))

-- The stores of a flow-mod up to the field `cookie`.
unfoldable pub put_rule : (transaction_id : ℕ) → Match → Buffer
unfolding put8 put16 put32 put_mac
put_rule transaction_id m =
    let b1 = put16 (put8 zeros 0 1) 2 (htons (sizeof_flow_mod + sizeof_action_output)) in
    let b2 = put32 (put8 b1 1 ofpt_flow_mod) 4 (htonl transaction_id) in
    let b3 = put32 (put16 b2 12 (htons m.in_port)) 8 (htonl 0) in
    let b4 = put_mac (put_mac b3 14 m.dl_src) 20 m.dl_dst in
    let b5 = put8 (put16 b4 26 (htons 65535)) 28 (htons 0) in
    let b6 = put32 (put8 b5 33 m.nw_proto) 40 (htonl m.nw_dst) in
    put16 (put32 b6 36 (htonl m.nw_src)) 30 (htons m.dl_type)

-- A flow-mod for the rule `m`, with one output action.
unfoldable pub flow_mod_inline : (transaction_id buffer_id : ℕ) → Match → (out_port : ℕ) → Buffer
unfolding put_rule put8 put16 put32 put64
flow_mod_inline transaction_id buffer_id m out_port =
    let b1 = put64 (put_rule transaction_id m) 48 (htobe64 0) in
    let b2 = put32 (put16 b1 56 (htons ofpfc_add)) 64 (htonl buffer_id) in
    let b3 = put16 (put16 b2 58 (htons 60)) 60 (htons 0) in
    let b4 = put16 (put16 (put16 b3 62 (htons 0)) 68 (htons 0)) 70 (htons 0) in
    let b5 = put8 (put8 (put8 (put8 b4 32 0) 29 0) 34 0) 35 0 in
    let b6 = put16 (put16 b5 46 (htons m.tp_dst)) 44 (htons m.tp_src) in
    let b7 = put16 (put16 b6 72 (htons ofpat_output)) 78 (htons 0) in
    put16 (put16 b7 74 (htons 8)) 76 (htons out_port)

unfoldable pub config_inline : (transaction_id : ℕ) → Buffer
unfolding put8 put16 put32
config_inline transaction_id =
    let b1 = put8 (put8 zeros 0 1) 1 ofpt_set_config in
    let b2 = put16 (put32 b1 4 (htonl transaction_id)) 2 (htons sizeof_switch_config) in
    put16 (put16 b2 8 (htons 0)) 10 (htons 128)

pub packet_out_inline_lem :
    (xid buffer_id in_port : ℕ)
    → bytes (packet_out_inline xid buffer_id in_port) 0 24
      ≡ packet_out_format xid buffer_id in_port 65531
unfolding packet_out_inline bytes
packet_out_inline_lem xid buffer_id in_port = simp network_bytes

-- The stores of version 1 make the same 80 bytes as `create_of_flow_mod` and
-- `create_of_action_output` of version 4.1: every field of the rule in network byte order at its place.
pub flow_mod_inline_lem :
    (xid buffer_id : ℕ) (m : Match) (port : ℕ)
    → bytes (flow_mod_inline xid buffer_id m port) 0 80 ≡ flow_mod_format xid buffer_id 60 m port
unfolding flow_mod_inline bytes htobe64
flow_mod_inline_lem xid buffer_id m port = simp network_bytes

pub config_inline_lem : (xid : ℕ) → bytes (config_inline xid) 0 12 ≡ config_format xid 0 128
unfolding config_inline bytes
config_inline_lem xid = simp network_bytes
