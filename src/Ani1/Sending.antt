-- ===== src/Ani1/Sending.antt =====
-- The state after each message of ANIv1/main.cpp, with the message in the wire format.
use daim.Prelude.{ℕ, ◌+◌, ◌%◌, ◌^◌, ◌≡◌, ap, Option, ◌∷◌}
use daim.Wire.Buffer.{bytes}
use daim.Wire.Ofp.{ofpp_flood}
use daim.Wire.Rule.{Match}
use daim.Wire.Format.{packet_out_format, flow_mod_format, config_format}
use daim.Con.State.{Env, State, SwitchHost, Message, ok}
use daim.Con.PacketIn.{PacketIn, out_port_of}
use daim.Con.Features.{config_ret}
use daim.Con.Sending.{delivered}
use daim.Ani1.Build.{
  packet_out_inline, flow_mod_inline, config_inline, packet_out_inline_lem, flow_mod_inline_lem,
  config_inline_lem,
}
use daim.Ani1.Handlers.{send_bytes, configure, flood_packet, install}

module _ (e : Env) where
  pub send_bytes_lem :
      (n : ℕ) (s : State) (m : Message)
      → bytes s.write_buffer 0 n ≡ m
      → send_bytes e n s ≡ delivered e m s
  unfolding send_bytes
  send_bytes_lem n s m h = ap (λ (k : Message). delivered e k s) h

  pub flood_packet_lem :
      (p : PacketIn) (s : State)
      → flood_packet e p s
        ≡ delivered e
            (packet_out_format p.xid p.buffer_id p.in_port ofpp_flood)
            (record s { write_buffer = packet_out_inline p.xid p.buffer_id p.in_port })
  unfolding flood_packet
  flood_packet_lem p s = send_bytes_lem 24 _ _ (packet_out_inline_lem p.xid p.buffer_id p.in_port)

  pub install_lem :
      (p : PacketIn) (m : Match) (found : Option SwitchHost) (s : State)
      → install e p m found s
        ≡ delivered e
            (flow_mod_format p.xid p.buffer_id 60 m (out_port_of found))
            (record s { write_buffer = flow_mod_inline p.xid p.buffer_id m (out_port_of found) })
  unfolding install
  install_lem p m found s =
      send_bytes_lem 80 _ _ (flow_mod_inline_lem p.xid p.buffer_id m (out_port_of found))

  pub configure_lem :
      (s : State)
      → let xid = (s.transaction_id + 1) % 2 ^ 32 in
        configure e s
        ≡ ok (config_ret (e.send (config_format xid 0 128 ∷ s.sent))) (
            delivered e
              (config_format xid 0 128)
              (record s { write_buffer = config_inline xid; transaction_id = xid }))
  unfolding configure
  configure_lem s =
      ap (λ (t : State). ok (config_ret t.write_buffer_len) t)
        (send_bytes_lem 12 _ _ (config_inline_lem ((s.transaction_id + 1) % 2 ^ 32)))
