-- ===== src/Examples/Messages.antt =====
-- The builders of com.cpp and the control messages of _con.cpp on small numbers.
use daim.Prelude.{ℕ, ◌≡◌}
use daim.Wire.Order.{htons}
use daim.Wire.Buffer.{zeros, bytes, Mac}
use daim.Wire.Build.{create_of_flow_mod, create_of_action_output}
use daim.Wire.Rule.{Match, add_rule}
use daim.Wire.Format.{flow_mod_format, flow_mod_lem}

abbrev mac : ℕ → Mac
mac n = record { a0 = 0; a1 = 0; a2 = 0; a3 = 0; a4 = 0; a5 = n }

abbrev icmp_rule : Match
icmp_rule = record {
  in_port = 1;
  dl_src = mac 1;
  dl_dst = mac 2;
  dl_type = 0x0800;
  nw_proto = 1;
  nw_src = 0x0a000001;
  nw_dst = 0x0a000002;
  tp_src = 0;
  tp_dst = 0;
}

flow_mod_example :
    bytes
      (create_of_action_output
        (create_of_flow_mod zeros (add_rule 3 300 60 icmp_rule))
        72
        (htons 0)
        (htons 2))
      0
      80
    ≡ flow_mod_format 3 300 60 icmp_rule 2
flow_mod_example = flow_mod_lem zeros 3 300 60 icmp_rule 2
