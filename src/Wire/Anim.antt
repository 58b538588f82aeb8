-- ===== src/Wire/Anim.antt =====
-- The messages that the controllers send to one another in LLDP frames, as `action_packout` and
-- `node_share_func` of ANIv41/_con.cpp put them together in `eth_buffer` and `n_buffer`.
use daim.Prelude.{ℕ, ◌+◌, ◌%◌, ◌≡◌, List, [], ◌∷◌, ◌++◌}
use daim.Wire.Order.{htons, htonl, htobe64, be16, be32, be64, network_bytes}
use daim.Wire.Buffer.{Buffer, Mac, zeros, bytes, copy, put8, put16, put32, put64, put_mac}
use daim.Wire.Ofp.{
  lldp_data, ofp_version, ofpt_packet_out, ofpat_output, sizeof_packet_out, sizeof_action_output,
  sizeof_ethernet, sizeof_anim_header, sizeof_net_node, anim_node,
}
use daim.Wire.Format.{header_format, output_format}

abbrev anim_src : Mac
anim_src = record { a0 = 0; a1 = 0; a2 = 0; a3 = 0; a4 = 0; a5 = 1 }

-- `1 << 5 | 1 << 1 | 1` is 0x23.
abbrev anim_dst : Mac
anim_dst = record { a0 = 1; a1 = 0x23; a2 = 0x20; a3 = 0; a4 = 0; a5 = 1 }

-- `eth_buffer`.
unfoldable pub eth_buffer : Buffer
unfolding put_mac put16 htons
eth_buffer = put16 (put_mac (put_mac zeros 6 anim_src) 0 anim_dst) 12 (htons lldp_data)

-- `n_buffer` up to the `memcpy` of the Ethernet header, which it includes.
unfoldable pub put_envelope : (port : ℕ) → Buffer
unfolding put8 put16 put32 htons htonl copy eth_buffer
put_envelope port =
    let b0 = put8 (put8 zeros 0 ofp_version) 1 ofpt_packet_out in
    let b1 = put32 (put32 b0 4 (htonl 0)) 8 (htonl 0xffff_ffff) in
    let b2 = put16 (put16 b1 12 (htons 65533)) 14 (htons sizeof_action_output) in
    let b3 = put16 (put16 b2 16 (htons ofpat_output)) 22 (htons 0) in
    let b4 = put16 b3 18 (htons 8) in
    let b5 = put16 b4 20 port in
    copy b5 (sizeof_packet_out + sizeof_action_output) eth_buffer 0 sizeof_ethernet

-- `struct anim_header`, after a `memset`.
unfoldable pub anim_header : (kind length : ℕ) → Buffer
unfolding put8 put16 htons
anim_header kind length = put16 (put8 zeros 0 kind) 2 (htons length)

-- An echo request or reply, to be sent out of `port`, which is in network order.
unfoldable pub echo_buffer : (kind port : ℕ) → Buffer
unfolding put_envelope anim_header copy put16 htons
echo_buffer kind port =
    let b =
      copy (put_envelope port) 38 (anim_header kind sizeof_anim_header) 0 sizeof_anim_header in
    put16 b 2 (htons (38 + sizeof_anim_header))

-- `struct net_node`, after a `memset`.
unfoldable pub net_node : (datapath_id port_no : ℕ) → Buffer
unfolding put64 put16
net_node datapath_id port_no = put16 (put64 zeros 0 datapath_id) 8 port_no

-- The message that tells a neighbour the datapath and the port behind a link.
unfoldable pub node_buffer : (datapath_id port : ℕ) → Buffer
unfolding put_envelope anim_header net_node copy put16 htons
node_buffer datapath_id port =
    let size = sizeof_anim_header + sizeof_net_node in
    let b0 = copy (put_envelope port) 38 (anim_header anim_node size) 0 sizeof_anim_header in
    let b1 = copy b0 42 (net_node datapath_id port) 0 sizeof_net_node in
    put16 b1 2 (htons (38 + size))

-- A packet-out that carries its own frame: no buffer, input port 0xfffd, and one output action; the
-- frame goes to 01:23:20:00:00:01.
abbrev pub envelope_format : (length port : ℕ) → List ℕ
envelope_format length port =
    header_format 13 length 0
    ++ be32 0xffff_ffff
    ++ be16 0xfffd
    ++ be16 8
    ++ output_format port
    ++ 1 ∷ 0x23 ∷ 0x20 ∷ 0 ∷ 0 ∷ 1 ∷ 0 ∷ 0 ∷ 0 ∷ 0 ∷ 0 ∷ 1 ∷ be16 0x88cc

-- The 42 bytes of an echo message are a packet-out for the port, an Ethernet header of the LLDP type,
-- and the header of the message.
pub echo_buffer_lem :
    (kind port : ℕ)
    → bytes (echo_buffer kind (htons port)) 0 42
      ≡ envelope_format 42 port ++ kind % 256 ∷ 0 ∷ be16 4
unfolding echo_buffer bytes
echo_buffer_lem kind port = simp network_bytes

-- The 58 bytes of a node message are a packet-out for the port, an Ethernet header of the LLDP type,
-- the header of the message, and the datapath id and the port in network byte order.
pub node_buffer_lem :
    (datapath_id port : ℕ)
    → bytes (node_buffer (htobe64 datapath_id) (htons port)) 0 58
      ≡ envelope_format 58 port
        ++ 2 ∷ 0 ∷ be16 20
        ++ be64 datapath_id
        ++ be16 port
        ++ 0 ∷ 0 ∷ 0 ∷ 0 ∷ 0 ∷ 0 ∷ []
unfolding node_buffer bytes
node_buffer_lem datapath_id port = simp network_bytes
