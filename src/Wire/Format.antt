-- ===== src/Wire/Format.antt =====
-- The OpenFlow wire format of the messages that com.cpp builds, and that the builders meet it.
use daim.Prelude.{ℕ, ◌%◌, ◌≡◌, List, [], ◌∷◌, ◌++◌}
use daim.Wire.Order.{htons, htonl, htobe64, be16, be32, be64, network_bytes}
use daim.Wire.Buffer.{Buffer, Mac, bytes}
use daim.Wire.Build.{
  create_of_hello, create_of_echo_reply, create_of_features_request, create_of_switch_config,
  create_of_packet_out, create_of_flow_mod, create_of_action_output,
}
use daim.Wire.Rule.{Match, add_rule}

-- `ofp_header`: version, type, length of the whole message, transaction id.
abbrev pub header_format : (kind len xid : ℕ) → List ℕ
header_format kind len xid = 1 ∷ kind ∷ be16 len ++ be32 xid

abbrev pub config_format : (xid flags miss_send_len : ℕ) → List ℕ
config_format xid flags miss_send_len = header_format 9 12 xid ++ be16 flags ++ be16 miss_send_len

-- `ofp_action_output`, with `max_len` 0.
abbrev pub output_format : (port : ℕ) → List ℕ
output_format port = be16 0 ++ be16 8 ++ be16 port ++ be16 0

-- `ofp_packet_out` of a buffered packet, with one output action and no data.
abbrev pub packet_out_format : (xid buffer_id in_port port : ℕ) → List ℕ
packet_out_format xid buffer_id in_port port =
    header_format 13 24 xid ++ be32 buffer_id ++ be16 in_port ++ be16 8 ++ output_format port

abbrev pub mac_format : Mac → List ℕ
mac_format m = m.a0 % 256 ∷ m.a1 % 256 ∷ m.a2 % 256 ∷ m.a3 % 256 ∷ m.a4 % 256 ∷ m.a5 % 256 ∷ []

-- `ofp_match` with every field compared (no wildcard), untagged (VLAN 0xffff), priority 0, ToS 0.
abbrev pub match_format : Match → List ℕ
match_format m =
    be32 0
    ++ be16 m.in_port
    ++ mac_format m.dl_src
    ++ mac_format m.dl_dst
    ++ be16 0xffff
    ++ 0 ∷ 0 ∷ be16 m.dl_type
    ++ 0 ∷ m.nw_proto % 256 ∷ 0 ∷ 0 ∷ be32 m.nw_src
    ++ be32 m.nw_dst
    ++ be16 m.tp_src
    ++ be16 m.tp_dst

-- `ofp_flow_mod` that adds a rule with an idle timeout and one output action.
abbrev pub flow_mod_format : (xid buffer_id idle_timeout : ℕ) → Match → (port : ℕ) → List ℕ
flow_mod_format xid buffer_id idle_timeout m port =
    header_format 14 80 xid
    ++ match_format m
    ++ be64 0
    ++ be16 0
    ++ be16 idle_timeout
    ++ be16 0
    ++ be16 0
    ++ be32 buffer_id
    ++ be16 0
    ++ be16 0
    ++ output_format port

module _ (b : Buffer) (xid : ℕ) where
  -- `create_of_hello` writes the 8 bytes of a hello with this transaction id, over any buffer.
  pub hello_lem : bytes (create_of_hello b (htonl xid)) 0 8 ≡ header_format 0 8 xid
  unfolding create_of_hello bytes
  hello_lem = simp network_bytes

  -- `create_of_echo_reply` writes the 8 bytes of an echo reply with this transaction id.
  pub echo_reply_lem : bytes (create_of_echo_reply b (htonl xid)) 0 8 ≡ header_format 3 8 xid
  unfolding create_of_echo_reply bytes
  echo_reply_lem = simp network_bytes

  -- `create_of_features_request` writes the 8 bytes of a features request with this transaction id.
  pub features_request_lem :
      bytes (create_of_features_request b (htonl xid)) 0 8 ≡ header_format 5 8 xid
  unfolding create_of_features_request bytes
  features_request_lem = simp network_bytes

  -- `create_of_switch_config` writes the 12 bytes of a switch configuration, in network byte order.
  pub switch_config_lem :
      (flags miss : ℕ)
      → bytes (create_of_switch_config b (htonl xid) (htons flags) (htons miss)) 0 12
        ≡ config_format xid flags miss
  unfolding create_of_switch_config bytes
  switch_config_lem flags miss = simp network_bytes

  -- `create_of_packet_out` and `create_of_action_output` behind it write the 24 bytes of a packet-out
  -- for a buffered packet with one output action, in network byte order.
  pub packet_out_lem :
      (buffer_id in_port port : ℕ)
      → bytes
          (create_of_action_output
            (create_of_packet_out b (htonl xid) (htonl buffer_id) (htons in_port) 8 0)
            16
            (htons 0)
            (htons port))
          0
          24
        ≡ packet_out_format xid buffer_id in_port port
  unfolding create_of_packet_out create_of_action_output bytes
  packet_out_lem buffer_id in_port port = simp network_bytes

-- `create_of_flow_mod` with the arguments of `action_packout`, and `create_of_action_output` behind
-- it, write the 80 bytes of a flow-mod: every field of the rule in network byte order at its place,
-- with the idle timeout, the buffer and one output action.
pub flow_mod_lem :
    (b : Buffer) (xid buffer_id idle_timeout : ℕ) (m : Match) (port : ℕ)
    → bytes
        (create_of_action_output
          (create_of_flow_mod b (add_rule xid buffer_id idle_timeout m))
          72
          (htons 0)
          (htons port))
        0
        80
      ≡ flow_mod_format xid buffer_id idle_timeout m port
unfolding create_of_flow_mod create_of_action_output bytes htobe64
flow_mod_lem b xid buffer_id idle_timeout m port = simp network_bytes
