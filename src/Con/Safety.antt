-- ===== src/Con/Safety.antt =====
-- The tables of the controller under every message: an invariant of all of the actions.
use daim.Prelude.{ℕ, ◌+◌, ◌*◌, ◌≤◌, refl, inl, inr, Bool, true, false, ◌==◌, Bool-cases}
use daim.Wire.Order.{ntohs}
use daim.Wire.Buffer.{get16}
use daim.Wire.Ofp.{lldp_data, ofpt_hello, ofpt_features_reply, ofpt_packet_in, ofpt_echo_request}
use daim.Table.Ops.{list_rewind}
use daim.Con.State.{Env, State, Ret, is_neg1}
use daim.Con.Reply.{xid_of}
use daim.Con.Features.{port_count, rounds, record_switch, action_features_reply}
use daim.Con.PacketIn.{PacketIn, packet_in}
use daim.Con.Branches.{action_packout}
use daim.Con.Dispatch.{action, goes_on}
use daim.Con.Ports.{
  ports_in, Inside, Inside-ports, datapath_at, show_ports-rewound, send_config_lem,
}
use daim.Con.Lldp.{action_packout-deadlock}
use daim.Con.Spared.{Spared, whole_table, add_ports-spared}
use daim.Con.Managed.{Managed-Kept, Noted-Kept, action_packout-Managed, action_packout-Noted}
use daim.Con.Invariant.{
  IsSound-ports, Sound, Kept, Safe, and_then-Safe, if-Safe, Ends-Safe, action_hello-Kept,
  action_echo-Kept,
}

module _ (e : Env) (spared : Spared e) (F : Type 0) where
  action_features_reply-Safe :
      (of_buffer : ℕ) (s : State)
      → Sound s
      → of_buffer + 32 + 48 * (0 + rounds (ports_in of_buffer s)) ≤ 3072000
      → Safe F (λ _ s'. Kept s s') (action_features_reply e of_buffer s)
  unfolding action_features_reply record_switch list_rewind
  action_features_reply-Safe of_buffer s sound inside = elim (Bool-cases s.links_mutex) [
    | inl held ↦ simp held tt
    | inr free ↦
        let n = port_count (ntohs (get16 s.read_buffer (of_buffer + 2))) in
        elim (Bool-cases (n == 0)) [
          | inl z ↦ simp (free, z) (sound, refl)
          | inr nz ↦
              let s2 : State = record s {
                switch_id = datapath_at s of_buffer;
                links_mutex = true;
                transaction_id = xid_of s of_buffer;
                no_of_ports = n;
                threads = s.threads + 1;
              } in
              let (xs, a, ran) =
                add_ports-spared e spared (rounds n) of_buffer 0 s2 inside sound.ports_whole in
              let s3 : State = record s2 {
                ports = whole_table xs s.ports.cursor;
                allocations = a;
                links_mutex = false;
              } in
              simp (free, nz, ran, show_ports-rewound e s3 refl sound.ports_start, send_config_lem)
                (IsSound-ports xs sound, refl)
        ]
  ]

  action_packout-Safe :
      (of_buffer : ℕ) (s : State)
      → Sound s
      → Safe F (λ _ s'. Kept s s') (action_packout e of_buffer s)
  action_packout-Safe of_buffer s sound =
      let p : PacketIn = packet_in s of_buffer in
      elim (Bool-cases (p.eth_type == lldp_data)) [
        | inr other ↦
            Ends-Safe F _ _ (λ r s' h. Managed-Kept e p s s' sound h.1) _
              (action_packout-Managed e spared of_buffer s sound.hosts_whole sound.distinct other)
        | inl lldp ↦ elim (Bool-cases s.links_mutex) [
          | inl held ↦ rw (action_packout-deadlock e of_buffer s lldp held) tt
          | inr free ↦
              Ends-Safe F _ _ (λ r s' h. Noted-Kept s s' sound h.1) _
                (action_packout-Noted e spared of_buffer s lldp free sound.replys_whole
                  sound.links_whole)
        ]
      ]

  -- Every action keeps the invariant, whatever the message says.
  pub action-Safe :
      (kind of_buffer : ℕ) (s : State)
      → Sound s
      → Inside kind of_buffer s.read_buffer
      → Safe F (λ _ s'. Kept s s') (action e kind of_buffer s)
  unfolding action
  action-Safe kind of_buffer s sound inside = elim (Bool-cases (kind == ofpt_hello)) [
    | inl a ↦ simp a (action_hello-Kept e of_buffer s sound)
    | inr a ↦ elim (Bool-cases (kind == ofpt_features_reply)) [
      | inl b ↦
          simp (a, b)
            (action_features_reply-Safe of_buffer s sound
              (Inside-ports kind of_buffer s.read_buffer b inside))
      | inr b ↦ elim (Bool-cases (kind == ofpt_packet_in)) [
        | inl c ↦ simp (a, b, c) (action_packout-Safe of_buffer s sound)
        | inr c ↦ elim (Bool-cases (kind == ofpt_echo_request)) [
          | inl d ↦ simp (a, b, c, d) (action_echo-Kept e of_buffer s sound)
          | inr d ↦ simp (a, b, c, d) (sound, refl)
        ]
      ]
    ]
  ]

  pub goes_on-Safe :
      (kind of_buffer : ℕ) (s : State)
      → Sound s
      → Inside kind of_buffer s.read_buffer
      → Safe F (λ _ s'. Kept s s') (goes_on e kind of_buffer s)
  unfolding goes_on
  goes_on-Safe kind of_buffer s sound inside =
      and_then-Safe F (λ (_ : Ret) s'. Kept s s') (λ (_ : Bool) s'. Kept s s') _
        (λ r s' h. if-Safe F (λ (_ : Bool) s''. Kept s s'') (is_neg1 e r) _ _ s' h h) _
        (action-Safe kind of_buffer s sound inside)
