-- ===== src/Con/Features.antt =====
-- `action_features_reply` and `show_ports`.
use daim.Prelude.{
  ℕ, zero, suc, ◌+◌, ◌-◌, ◌*◌, ◌/◌, ◌%◌, ◌^◌, Bool, true, false, Option, ◌==◌, ltb, leb,
  if◌then◌else◌,
}
use daim.Wire.Order.{htonl, htons, ntohs, be64toh}
use daim.Wire.Buffer.{Buffer, zeros, get16, get64, get_mac}
use daim.Wire.Ofp.{sizeof_switch_features, sizeof_phy_port}
use daim.Wire.Build.{create_of_switch_config}
use daim.Table.Ops
use daim.Table.Ops.{Table, list_rewind}
use daim.Table.Loops.{find_object}
use daim.Con.State.{
  Env, SwitchPort, Count, error, bytes_done, Ret, ret_0, ret_neg1, no_return, ok, undefined, M,
  pure, ◌>>=◌, ◌>>◌, defined, lock, unlock, send_write_buffer,
}
use daim.Con.Reply.{xid_of}

-- `((ntohs (length)) - sizeof (struct ofp_switch_features)) / sizeof (struct ofp_phy_port)`: the
-- difference is a 64-bit `size_t`, and the quotient is cut to the 32 bits of an `int`.
unfoldable pub port_count : (length : ℕ) → ℕ
port_count length = (length + 2 ^ 64 - sizeof_switch_features) % 2 ^ 64 / sizeof_phy_port % 2 ^ 32

-- The rounds of `for (int port_count = 0; port_count < no_of_ports; ...)`: none if the bits are
-- those of a negative number.
unfoldable pub rounds : (no_of_ports : ℕ) → ℕ
rounds n = if ltb n (2 ^ 31) then n else 0

-- `p_features_reply->ports[i]`, as a `struct switch_port` of the switch `switch_id`.
unfoldable pub port_at : Buffer → (switch_id of_buffer i : ℕ) → SwitchPort
port_at b switch_id of_buffer i =
    let o = of_buffer + sizeof_switch_features + sizeof_phy_port * i in
    record { datapath_id = switch_id; port_no = ntohs (get16 b o); mac_addr = get_mac b (o + 2) }

-- Whether what `port_at` reads, the number and the address of the port `i`, lies in the 3072000 bytes of
-- `read_buffer`.
unfoldable pub port_inside : (of_buffer i : ℕ) → Bool
port_inside of_buffer i = leb (of_buffer + sizeof_switch_features + sizeof_phy_port * i + 8) 3072000

-- `show_ports`: the loop goes on from where the cursor stands; what it prints is left out.
unfoldable pub show_ports : M (Option SwitchPort)
show_ports s = defined (find_object (λ _. false) s.ports) λ t. record s { ports = list_rewind t }

-- The tests of the result of `send` at the end: -1 fails, and 0 runs off the end of the function.
abbrev pub config_ret : Count → Ret
config_ret error = ret_neg1
config_ret (bytes_done n) = if n == 0 then no_return else ret_0

module _ (e : Env) where
  unfoldable pub add_port : SwitchPort → M Bool
  add_port p s =
      defined (Ops.add_object (e.grant s.allocations) p s.ports)
        λ t. record s { ports = t; allocations = s.allocations + 1 }

  -- The loop, with `n` rounds left; undefined where a port lies behind the buffer.
  unfoldable pub add_ports : (n of_buffer i : ℕ) → M (Unit {0})
  add_ports zero of_buffer i = pure tt
  add_ports (suc n) of_buffer i =
      let rest = add_ports n of_buffer (i + 1) in
      λ s.
        if port_inside of_buffer i
        then (add_port (port_at s.read_buffer s.switch_id of_buffer i) >> rest) s
        else undefined

  -- From `show_ports` on.
  unfoldable pub send_config : M Ret
  send_config s =
      let xid = (s.transaction_id + 1) % 2 ^ 32 in
      let s1 = send_write_buffer e (record s {
        write_buffer = create_of_switch_config zeros (htonl xid) (htons 0) (htons 128);
        transaction_id = xid;
      }) in
      ok (config_ret s1.write_buffer_len) s1

  -- The part under the mutex, once there is a port: `true` goes on. Without a port the function
  -- returns, and the mutex stays locked.
  unfoldable pub record_switch : (of_buffer : ℕ) → M Bool
  record_switch of_buffer s =
      let n = port_count (ntohs (get16 s.read_buffer (of_buffer + 2))) in
      let s1 = record s { no_of_ports = n } in
      let s2 = record s1 {
        switch_id = be64toh (get64 s.read_buffer (of_buffer + 8));
        threads = s.threads + 1;
      } in
      if n == 0 then ok false s1 else (add_ports (rounds n) of_buffer 0 >> unlock >> pure true) s2

  unfoldable pub action_features_reply : (of_buffer : ℕ) → M Ret
  action_features_reply of_buffer s =
      (do
        lock
        going ← record_switch of_buffer
        if going then show_ports >> send_config else pure ret_neg1)
        (record s { transaction_id = xid_of s of_buffer })
