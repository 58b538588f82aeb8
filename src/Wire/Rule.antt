-- ===== src/Wire/Rule.antt =====
-- The arguments with which `action_packout` of ANIv41/_con.cpp calls `create_of_flow_mod`.
use daim.Prelude.{ℕ}
use daim.Wire.Order.{htons, htonl, htobe64}
use daim.Wire.Buffer.{Mac}
use daim.Wire.Build.{FlowMod}

-- What a flow rule matches on, in the byte order of the host.
pub record Match : Type 0 where
  pub in_port : ℕ
  pub dl_src : Mac
  pub dl_dst : Mac
  pub dl_type : ℕ
  pub nw_proto : ℕ
  pub nw_src : ℕ
  pub nw_dst : ℕ
  pub tp_src : ℕ
  pub tp_dst : ℕ

-- The call of `create_of_flow_mod` that `action_packout` makes, for the rule `m`.
abbrev pub add_rule : (xid buffer_id idle_timeout : ℕ) → Match → FlowMod
add_rule xid buffer_id idle_timeout m = record {
  transaction_id = htonl xid;
  input_port = htons m.in_port;
  out_port = htons 0;
  buffer_id = htonl buffer_id;
  command = htons 0;
  cookie = htobe64 0;
  flags = htons 0;
  hard_timeout = htons 0;
  idle_timeout = htons idle_timeout;
  priority = htons 0;
  wildcards = htonl 0;
  ip_addr_src = htonl m.nw_src;
  ip_addr_dst = htonl m.nw_dst;
  ip_port_src = htons m.tp_src;
  ip_port_dst = htons m.tp_dst;
  ip_protocol = m.nw_proto;
  ip_tos = 0;
  vlan = htons 0xffff;
  vlan_priority = htons 0;
  eth_src = m.dl_src;
  eth_dst = m.dl_dst;
  eth_type = htons m.dl_type;
  acts_length = 8;
}
