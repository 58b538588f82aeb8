-- ===== src/Con/Neighbours.antt =====
-- Two controllers of ANIv41: what one sends in a node message, the other records as a link.
use daim.Prelude.{
  ℕ, ◌+◌, ◌*◌, ◌/◌, ◌%◌, ◌^◌, ◌<◌, ◌≡◌, refl, ap, ◌∙◌, true, false, [], ◌∷◌, ◌++◌, ◌==◌, arith,
}
use mathlib.Core.Path.{subst}
use daim.Wire.Order.{byte_byte, htons, htobe64, htons-htons, htobe64-htobe64}
use daim.Wire.Buffer.{get16, get64}
use daim.Wire.Bytes.{SameFrom, get16-SameFrom, get64-SameFrom}
use daim.Wire.Ofp.{lldp_data, anim_node}
use daim.Wire.Anim.{node_buffer}
use daim.Table.Ops.{granted}
use daim.Con.State.{Env, State, SwitchLink, Ends}
use daim.Con.PacketIn.{PacketIn, body, packet_in, link_of}
use daim.Con.Branches.{last_test, action_packout}
use daim.Con.Ends.{Ends-weaken}
use daim.Con.Lldp.{Announced, action_packout-Announced}

get64_word :
    (w : ℕ)
    → w < 2 ^ 64
    → (w % 256
          + w / 2 ^ 8 % 256 * 2 ^ 8
          + (w / 2 ^ 16 % 256 + w / 2 ^ 16 / 2 ^ 8 % 256 * 2 ^ 8) * 2 ^ 16)
        + (w / 2 ^ 32 % 256
            + w / 2 ^ 32 / 2 ^ 8 % 256 * 2 ^ 8
            + (w / 2 ^ 32 / 2 ^ 16 % 256 + w / 2 ^ 32 / 2 ^ 16 / 2 ^ 8 % 256 * 2 ^ 8) * 2 ^ 16)
          * 2 ^ 32
      ≡ w
get64_word w small = omega arith

htobe64_small : (v : ℕ) → htobe64 v < 2 ^ 64
unfolding htobe64
htobe64_small v = omega arith

htons_small : (v : ℕ) → htons v < 2 ^ 16
unfolding htons
htons_small v = omega arith

node_kind : (w q : ℕ) → node_buffer w q 38 ≡ anim_node
unfolding node_buffer
node_kind w q = refl

node_datapath : (w q : ℕ) → w < 2 ^ 64 → get64 (node_buffer w q) 42 ≡ w
unfolding node_buffer get64
node_datapath w q small = simp byte_byte (get64_word w small)

node_port : (w q : ℕ) → q < 2 ^ 16 → get16 (node_buffer w q) 50 ≡ q
unfolding node_buffer get16
node_port w q small = omega (arith, small)

module _ (s : State) (p : PacketIn) (datapath_id port : ℕ) where
  -- Behind its Ethernet header the packet carries what a node message for this datapath and this port
  -- carries behind its own.
  abbrev pub CarriesNode : Type 0
  CarriesNode =
      SameFrom s.read_buffer (body p) (node_buffer (htobe64 datapath_id) (htons port)) 38 20

  part :
      CarriesNode
      → SameFrom s.read_buffer (body p + 4) (node_buffer (htobe64 datapath_id) (htons port)) 42 8
        × SameFrom s.read_buffer
            (body p + 4 + 8)
            (node_buffer (htobe64 datapath_id) (htons port))
            50
            2
  part carries = (
    (λ i less.
        let here : body p + 4 + i ≡ body p + (4 + i) = omega arith in
        let there : 38 + (4 + i) ≡ 42 + i = omega arith in
        ap s.read_buffer here
        ∙ carries (4 + i) (omega arith)
        ∙ ap (node_buffer (htobe64 datapath_id) (htons port)) there),
    (λ i less.
        let here : body p + 4 + 8 + i ≡ body p + (12 + i) = omega arith in
        let there : 38 + (12 + i) ≡ 50 + i = omega arith in
        ap s.read_buffer here
        ∙ carries (12 + i) (omega arith)
        ∙ ap (node_buffer (htobe64 datapath_id) (htons port)) there),
  )

  link_of-node :
      datapath_id < 2 ^ 64
      → port < 2 ^ 16
      → CarriesNode
      → link_of s p ≡ record {
        node_a = record { datapath_id = s.switch_id; port_no = p.in_port };
        node_b = record { datapath_id = datapath_id; port_no = port };
      }
  unfolding link_of
  link_of-node small_id small_port carries =
      let (id, number) = part carries in
      let word : get64 s.read_buffer (body p + 4) ≡ htobe64 datapath_id =
        get64-SameFrom s.read_buffer (node_buffer (htobe64 datapath_id) (htons port)) (body p + 4)
          42 id
        ∙ node_datapath (htobe64 datapath_id) (htons port) (htobe64_small datapath_id) in
      let half : get16 s.read_buffer (body p + 4 + 8) ≡ htons port =
        get16-SameFrom s.read_buffer (node_buffer (htobe64 datapath_id) (htons port))
          (body p + 4 + 8) 50 number
        ∙ node_port (htobe64 datapath_id) (htons port) (htons_small port) in
      rw (word, half, htobe64-htobe64 datapath_id small_id, htons-htons port small_port) refl

module _ (e : Env) where
  -- An LLDP packet-in that carries, behind its Ethernet header, what `node_share_func` of another
  -- controller sends for its datapath id and a port makes `action_packout` add exactly one link: from
  -- the port of the own switch on which it came in to that datapath and that port. For this every
  -- allocation is granted, the mutex is free and the tables of links and replies are whole; the
  -- datapath id has 64 bits and the port 16. The counter of the sharing thread is reset, and nothing is
  -- sent.
  pub action_packout-link :
      (of_buffer datapath_id port : ℕ) (s : State)
      → ((k : ℕ) → e.grant k ≡ granted)
      → ((packet_in s of_buffer).eth_type == lldp_data) ≡ true
      → s.links_mutex ≡ false
      → s.sw_replys.broken ≡ false
      → s.links.broken ≡ false
      → datapath_id < 2 ^ 64
      → port < 2 ^ 16
      → CarriesNode s (packet_in s of_buffer) datapath_id port
      → Ends
          (λ _ s'.
            (s'.links.items
              ≡ s.links.items
                ++ (record {
                  node_a = record {
                    datapath_id = s.switch_id;
                    port_no = (packet_in s of_buffer).in_port;
                  };
                  node_b = record { datapath_id = datapath_id; port_no = port };
                }
                    ∷ []))
            × (s'.anim_node_counter ≡ 0)
            × (s'.sent ≡ s.sent))
          (action_packout e of_buffer s)
  action_packout-link of_buffer datapath_id port s grants lldp free replys links id no16 carries =
      let p : PacketIn = packet_in s of_buffer in
      let place : body p ≡ body p + 0 = omega arith in
      let kind : s.read_buffer (body p) ≡ anim_node =
        ap s.read_buffer place
        ∙ carries 0 (omega arith)
        ∙ node_kind (htobe64 datapath_id) (htons port) in
      Ends-weaken (λ r s'. (r ≡ last_test s') × Announced p (s.read_buffer (body p)) s s') _
        (λ r s' h.
          let a : Announced p anim_node s s' = subst (λ (k : ℕ). Announced p k s s') kind h.1 in
          (
            a.reported
                ∙ ap (λ (l : SwitchLink). s.links.items ++ l ∷ [])
                    (link_of-node s p datapath_id port id no16 carries),
            a.counter,
            a.messages,
          ))
        _ (action_packout-Announced e of_buffer s grants lldp free replys links)
