-- ===== src/Ani21/Greets.antt =====
-- From a features reply to the texts that the neighbours get, in ANIv21/_con.cpp.
use daim.Prelude.{ℕ, ◌+◌, ◌*◌, ◌^◌, ◌<◌, ◌≤◌, ◌≡◌, refl, ap, ◌∙◌, sym, false, ◌++◌, arith, eq_ne}
use daim.Wire.Order.{ntohs}
use daim.Wire.Buffer.{get16}
use daim.Table.Ops.{granted, rewound, list_rewind}
use daim.Con.State.{Env, State, SwitchInfo, ok, Ends}
use daim.Con.Reply.{xid_of}
use daim.Con.Features.{rounds}
use daim.Con.Ports.{
  port_count_lem, rounds_lem, datapath_at, ports_of, with_ports, config_trace, add_ports-granted,
  show_ports-rewound, send_config_lem,
}
use daim.Ani21.Actions.{entry, sending, action_features_reply}
use daim.Ani21.Sharing.{greeted, text_rounds, text_rounds-started}

module _ (e : Env) where
  -- What a new thread does in `n + 2` rounds from `s'` on.
  abbrev pub Greets : (of_buffer n : ℕ) → (s s' : State) → Type 0
  Greets of_buffer n s s' =
      Ends
        (λ pc s''.
          (pc ≡ sending 1 n (datapath_at s of_buffer))
          × (s''.sent ≡ greeted (datapath_at s of_buffer) n 1 s'.sent))
        (text_rounds e (n + 2) entry s')

  Greets-started :
      (of_buffer n : ℕ) (s s' : State)
      → n < 2 ^ 31
      → s'.sw_in ≡ record { datapath_id = datapath_at s of_buffer; no_of_ports = n }
      → Greets of_buffer n s s'
  Greets-started of_buffer n s s' small info =
      let id : s'.sw_in.datapath_id ≡ datapath_at s of_buffer =
        ap (λ (i : SwitchInfo). i.datapath_id) info in
      let ports : s'.sw_in.no_of_ports ≡ n = ap (λ (i : SwitchInfo). i.no_of_ports) info in
      let count : rounds s'.sw_in.no_of_ports ≡ n = ap rounds ports ∙ rounds_lem n small in
      let ran : text_rounds e (n + 2) entry s'
          ≡ ok (sending 1 s'.sw_in.no_of_ports s'.sw_in.datapath_id) (record s' {
            sent = greeted s'.sw_in.datapath_id (rounds s'.sw_in.no_of_ports) 1 s'.sent;
          }) =
        ap (λ (k : ℕ). text_rounds e (k + 2) entry s') (sym count) ∙ text_rounds-started e s' in
      rw ran (
        ap (λ (k : ℕ). sending 1 k s'.sw_in.datapath_id) ports ∙ ap (λ (d : ℕ). sending 1 n d) id,
        ap (λ (k : ℕ). greeted s'.sw_in.datapath_id k 1 s'.sent) count
            ∙ ap (λ (d : ℕ). greeted d n 1 s'.sent) id,
      )

  -- A features reply of `n` ports, at least one, in the buffer, with granted memory, a whole and rewound port
  -- table: `action_features_reply` of version 2.1 ends, with these ports in the table and the switch
  -- configuration sent; and the thread that it has started then sends, in its first `n + 2` rounds, the
  -- text with the datapath id of the reply to the ports 1 to `n` in order, and begins again.
  pub action_features_reply-Greets :
      (of_buffer n : ℕ) (s : State)
      → ((k : ℕ) → e.grant k ≡ granted)
      → ntohs (get16 s.read_buffer (of_buffer + 2)) ≡ 32 + 48 * n
      → 0 < n
      → 32 + 48 * n < 2 ^ 16
      → of_buffer + (32 + 48 * n) ≤ 3072000
      → s.ports.broken ≡ false
      → s.ports.cursor ≡ rewound
      → Ends
          (λ _ s'.
            (s'.ports.items
              ≡ s.ports.items ++ ports_of s.read_buffer (datapath_at s of_buffer) of_buffer n 0)
            × (s'.sent ≡ config_trace s of_buffer)
            × (s'.threads ≡ s.threads + 1)
            × Greets of_buffer n s s')
          (action_features_reply e of_buffer s)
  unfolding action_features_reply list_rewind
  action_features_reply-Greets of_buffer n s grants len pos fits inside whole start =
      let s2 : State = record s {
        transaction_id = xid_of s of_buffer;
        no_of_ports = n;
        switch_id = datapath_at s of_buffer;
        sw_in = record { datapath_id = datapath_at s of_buffer; no_of_ports = n };
        threads = s.threads + 1;
      } in
      let s3 : State =
        with_ports e grants s2 (ports_of s2.read_buffer s2.switch_id of_buffer n 0) n in
      simp
        (
          len,
          port_count_lem n fits,
          eq_ne n 0 (λ z. omega arith),
          rounds_lem n (omega arith),
          add_ports-granted e grants n of_buffer 0 s2 (omega (arith, inside)) whole,
          show_ports-rewound e s3 whole start,
          send_config_lem,
        )
        (refl, refl, refl, Greets-started of_buffer n s _ (omega arith) refl)
