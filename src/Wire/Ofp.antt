-- ===== src/Wire/Ofp.antt =====
-- The constants and struct sizes of ANIv41/openflow.h, eth.h and _con.h that the controller uses.
use daim.Prelude.{ℕ}

abbrev pub ofp_version : ℕ
ofp_version = 0x01

-- `enum ofp_type`.
abbrev pub ofpt_hello : ℕ
ofpt_hello = 0

abbrev pub ofpt_echo_request : ℕ
ofpt_echo_request = 2

abbrev pub ofpt_echo_reply : ℕ
ofpt_echo_reply = 3

abbrev pub ofpt_features_request : ℕ
ofpt_features_request = 5

abbrev pub ofpt_features_reply : ℕ
ofpt_features_reply = 6

abbrev pub ofpt_set_config : ℕ
ofpt_set_config = 9

abbrev pub ofpt_packet_in : ℕ
ofpt_packet_in = 10

abbrev pub ofpt_port_status : ℕ
ofpt_port_status = 12

abbrev pub ofpt_packet_out : ℕ
ofpt_packet_out = 13

abbrev pub ofpt_flow_mod : ℕ
ofpt_flow_mod = 14

-- `enum ofp_port`, `ofp_flow_mod_command`, `ofp_action_type`.
abbrev pub ofpp_flood : ℕ
ofpp_flood = 0xfffb

abbrev pub ofpfc_add : ℕ
ofpfc_add = 0

abbrev pub ofpat_output : ℕ
ofpat_output = 0

-- `sizeof`, as openflow.h asserts it.
abbrev pub sizeof_header : ℕ
sizeof_header = 8

abbrev pub sizeof_switch_config : ℕ
sizeof_switch_config = 12

abbrev pub sizeof_phy_port : ℕ
sizeof_phy_port = 48

abbrev pub sizeof_switch_features : ℕ
sizeof_switch_features = 32

abbrev pub sizeof_action_output : ℕ
sizeof_action_output = 8

abbrev pub sizeof_packet_out : ℕ
sizeof_packet_out = 16

abbrev pub sizeof_flow_mod : ℕ
sizeof_flow_mod = 72

-- eth.h
abbrev pub arp_data : ℕ
arp_data = 0x0806

abbrev pub ip_data : ℕ
ip_data = 0x0800

abbrev pub ip6_data : ℕ
ip6_data = 0x86dd

abbrev pub lldp_data : ℕ
lldp_data = 0x88cc

abbrev pub sizeof_ethernet : ℕ
sizeof_ethernet = 14

-- _con.h
abbrev pub ip_type_icmp : ℕ
ip_type_icmp = 1

abbrev pub ip_type_tcp : ℕ
ip_type_tcp = 6

abbrev pub ip_type_udp : ℕ
ip_type_udp = 17

abbrev pub ip_proto_unknown : ℕ
ip_proto_unknown = 255

-- `enum anim_type`.
abbrev pub anim_echo_request : ℕ
anim_echo_request = 0

abbrev pub anim_echo_reply : ℕ
anim_echo_reply = 1

abbrev pub anim_node : ℕ
anim_node = 2

-- `struct anim_header` is a byte, a byte of padding and a 16-bit word; `struct net_node` is padded
-- from 10 bytes to 16.
abbrev pub sizeof_anim_header : ℕ
sizeof_anim_header = 4

abbrev pub sizeof_net_node : ℕ
sizeof_net_node = 16
