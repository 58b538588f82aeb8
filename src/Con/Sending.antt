-- ===== src/Con/Sending.antt =====
-- The state after each of the controller's messages, with the message in the wire format.
use daim.Prelude.{ℕ, ◌+◌, ◌%◌, ◌^◌, ◌≡◌, ap, [], ◌∷◌, ◌++◌}
use daim.Wire.Order.{htonl, htons, ntohs}
use daim.Wire.Buffer.{Buffer, zeros, get16, bytes}
use daim.Wire.Ofp.{ofpp_flood, sizeof_action_output, sizeof_packet_out, anim_echo_reply}
use daim.Wire.Build.{
  create_of_hello, create_of_features_request, create_of_echo_reply, create_of_packet_out,
  create_of_flow_mod, create_of_action_output,
}
use daim.Wire.Rule.{Match, add_rule}
use daim.Wire.Format.{
  header_format, packet_out_format, flow_mod_format, hello_lem, features_request_lem,
  echo_reply_lem, packet_out_lem, flow_mod_lem,
}
use daim.Wire.Anim.{echo_buffer, envelope_format, echo_buffer_lem}
use daim.Con.State.{Env, State, Message, send_write_buffer, send_buffer}
use daim.Con.Reply.{send_hello, send_features_request, send_echo_reply}
use daim.Con.PacketIn.{PacketIn}
use daim.Con.Branches.{flood, flow_mod, send_echo}

-- `s` after `m` has been given to `send`, and its result to `write_buffer_len`.
abbrev pub delivered : Env → Message → State → State
delivered e m s = record s { sent = m ∷ s.sent; write_buffer_len = e.send (m ∷ s.sent) }

abbrev pub flood_buffer : PacketIn → Buffer
flood_buffer p =
    create_of_action_output
      (create_of_packet_out zeros (htonl p.xid) (htonl p.buffer_id) (htons p.in_port)
        sizeof_action_output 0)
      sizeof_packet_out (htons 0) (htons ofpp_flood)

abbrev pub rule_buffer : PacketIn → Match → ℕ → Buffer
rule_buffer p m port =
    create_of_action_output (create_of_flow_mod zeros (add_rule p.xid p.buffer_id 60 m)) 72
      (htons 0) (htons port)

module _ (e : Env) where
  pub deliver :
      (s : State) (m : Message)
      → bytes s.write_buffer 0 (ntohs (get16 s.write_buffer 2)) ≡ m
      → send_write_buffer e s ≡ delivered e m s
  unfolding send_write_buffer
  deliver s m h = ap (λ (k : Message). delivered e k s) h

  pub send_hello_lem :
      (xid : ℕ) (s : State)
      → send_hello e xid s
        ≡ delivered e
            (header_format 0 8 xid)
            (record s { transaction_id = xid; write_buffer = create_of_hello zeros (htonl xid) })
  unfolding send_hello create_of_hello get16 ntohs
  send_hello_lem xid s = deliver _ _ (hello_lem zeros xid)

  pub send_features_request_lem :
      (s : State)
      → send_features_request e s
        ≡ delivered e (header_format 5 8 ((s.transaction_id + 1) % 2 ^ 32)) (record s {
          transaction_id = (s.transaction_id + 1) % 2 ^ 32;
          write_buffer =
              create_of_features_request s.write_buffer (htonl ((s.transaction_id + 1) % 2 ^ 32));
        })
  unfolding send_features_request create_of_features_request get16 ntohs
  send_features_request_lem s = deliver _ _ (features_request_lem s.write_buffer _)

  pub send_echo_reply_lem :
      (xid : ℕ) (s : State)
      → send_echo_reply e xid s
        ≡ delivered e (header_format 3 8 xid) (record s {
          transaction_id = xid;
          write_buffer = create_of_echo_reply zeros (htonl xid);
        })
  unfolding send_echo_reply create_of_echo_reply get16 ntohs
  send_echo_reply_lem xid s = deliver _ _ (echo_reply_lem zeros xid)

  pub flood_lem :
      (p : PacketIn) (s : State)
      → flood e p s
        ≡ delivered e
            (packet_out_format p.xid p.buffer_id p.in_port ofpp_flood)
            (record s { write_buffer = flood_buffer p })
  unfolding flood create_of_packet_out create_of_action_output get16 ntohs
  flood_lem p s = deliver _ _ (packet_out_lem zeros p.xid p.buffer_id p.in_port ofpp_flood)

  pub flow_mod_sent :
      (p : PacketIn) (m : Match) (port : ℕ) (s : State)
      → flow_mod e p m port s
        ≡ delivered e
            (flow_mod_format p.xid p.buffer_id 60 m port)
            (record s { write_buffer = rule_buffer p m port })
  unfolding flow_mod create_of_flow_mod create_of_action_output get16 ntohs
  flow_mod_sent p m port s = deliver _ _ (flow_mod_lem zeros p.xid p.buffer_id 60 m port)

  pub send_echo_lem :
      (p : PacketIn) (s : State)
      → send_echo e p s ≡ record s {
        sent = (envelope_format 42 p.in_port ++ anim_echo_reply ∷ 0 ∷ 0 ∷ 4 ∷ []) ∷ s.sent;
      }
  unfolding send_echo send_buffer echo_buffer get16 ntohs
  send_echo_lem p s =
      ap (λ (k : Message). record s { sent = k ∷ s.sent })
        (echo_buffer_lem anim_echo_reply p.in_port)
