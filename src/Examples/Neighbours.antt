-- ===== src/Examples/Neighbours.antt =====
-- A link that a controller learns from its neighbour.
use daim.Prelude.{◌≡◌, refl, [], ◌∷◌, arith}
use daim.Wire.Order.{htons, htobe64, ntohs}
use daim.Wire.Buffer.{get16}
use daim.Wire.Anim.{node_buffer}
use daim.Con.State.{State, Ends}
use daim.Con.PacketIn.{packet_in}
use daim.Con.Branches.{action_packout}
use daim.Con.Neighbours.{action_packout-link}
use daim.Examples.Inputs.{calm, all_granted, frame_of, frame_of_same}

-- The node message of the datapath 77 for its port 3, as it comes in.
abbrev from_neighbour : State
from_neighbour = frame_of (node_buffer (htobe64 77) (htons 3))

action_packout-link_example :
    Ends
      (λ _ s'.
        (s'.links.items
          ≡ record {
            node_a = record { datapath_id = 0; port_no = (packet_in from_neighbour 0).in_port };
            node_b = record { datapath_id = 77; port_no = 3 };
          }
            ∷ [])
        × (s'.anim_node_counter ≡ 0)
        × (s'.sent ≡ []))
      (action_packout calm 0 from_neighbour)
unfolding packet_in get16 ntohs node_buffer
action_packout-link_example =
    action_packout-link calm 0 77 3 from_neighbour all_granted refl refl refl refl (omega arith)
      (omega arith) (λ i less. frame_of_same (node_buffer (htobe64 77) (htons 3)) i 20 less)
