-- ===== src/Ani21/Loop.antt =====
-- `action_packout` of ANIv21/_con.cpp against that of version 4.1, and `send_information`.
use daim.Prelude.{
  ℕ, ◌+◌, ◌*◌, ◌≤◌, ◌<◌, ◌≡◌, refl, sym, inl, inr, true, false, some, List, ◌==◌, le→leb,
  Bool-cases, arith, ==_iff,
}
use mathlib.Core.Path.{subst}
use daim.Wire.Order.{ntohs}
use daim.Wire.Buffer.{Buffer, get16}
use daim.Wire.Ofp.{
  arp_data, ip_data, ip6_data, lldp_data, ofpt_hello, ofpt_features_reply, ofpt_packet_in,
  ofpt_echo_request,
}
use daim.Table.Ops.{list_rewind}
use daim.Con.State.{Env, State, Ret, ret_0, ret_neg1, ok, Ends, is_neg1, pure}
use daim.Con.Reply.{check_openflow, xid_of}
use daim.Con.Features.{port_count, rounds}
use daim.Con.PacketIn.{PacketIn, body, packet_in}
use daim.Con.Branches
use daim.Con.Branches.{last_test}
use daim.Con.Dispatch.{type_at, bytes_read}
use daim.Con.Ports.{
  ports_in, Inside, Inside-ports, datapath_at, show_ports-rewound, send_config_lem,
}
use daim.Con.Spared.{Spared, whole_table, add_ports-spared}
use daim.Con.Managed.{action_packout-Managed, Managed-Kept}
use daim.Con.Invariant.{IsSound-ports, Sound, Kept, action_hello-Kept, action_echo-Kept}
use daim.Con.Messages.{messages, Along, Proper}
use daim.Con.Ends.{and_then-Ends, Ends-weaken, if-Ends}
use daim.Ani1.Loop.{message_loop-Kept}
use daim.Ani21.Text.{text_at}
use daim.Ani21.Actions
use daim.Ani21.Actions.{heard_text, text_branch, frame_action, action_features_reply}
use daim.Ani21.Dispatch.{message_action, act_on, only_message, send_information}

-- Wherever the branch for LLDP looks for a text it finds the end of one.
abbrev pub Terminated : Buffer → Type 0
Terminated b = (o : ℕ) → (text : List ℕ) × (text_at b o 1024 ≡ some text)

-- A message that begins where one more has room, does not state the length 0, and is whole and in the
-- buffer if it is a features reply.
abbrev pub Heard : Buffer → (o : ℕ) → Type 0
Heard b o = Proper b o × (o ≤ 3061760)

packet_in-offset : (s : State) (of_buffer : ℕ) → (packet_in s of_buffer).of_buffer ≡ of_buffer
unfolding packet_in
packet_in-offset s of_buffer = refl

module _ (e : Env) where
  frame_action-same :
      (p : PacketIn) (s : State)
      → (p.eth_type == lldp_data) ≡ false
      → frame_action e p s ≡ Branches.frame_branch e p s
  unfolding frame_action Branches.frame_branch
  frame_action-same p s other = elim (Bool-cases (p.eth_type == ip6_data)) [
    | inl a ↦ simp a
    | inr a ↦ elim (Bool-cases (p.eth_type == arp_data)) [
      | inl b ↦ simp (a, b)
      | inr b ↦ elim (Bool-cases (p.eth_type == ip_data)) [
        | inl c ↦ simp (a, b, c)
        | inr c ↦ simp (a, b, c, other)
      ]
    ]
  ]

  -- On every frame that is not LLDP, `action_packout` of version 2.1 is that of version 4.1: the same
  -- result, messages and tables, or the same undefined behaviour.
  action_packout-same :
      (of_buffer : ℕ) (s : State)
      → ((packet_in s of_buffer).eth_type == lldp_data) ≡ false
      → Actions.action_packout e of_buffer s ≡ Branches.action_packout e of_buffer s
  unfolding Actions.action_packout Branches.action_packout
  action_packout-same of_buffer s other =
      let p : PacketIn = packet_in s of_buffer in
      let s1 : State = record s { transaction_id = p.xid } in
      let same : frame_action e p s1 ≡ Branches.frame_branch e p s1 =
        frame_action-same p s1 other in
      rw same refl

  heard_text-Terminated :
      (p : PacketIn) (s : State)
      → Terminated s.read_buffer
      → p.of_buffer ≤ 3061760
      → (text : List ℕ) × (heard_text s p ≡ some text)
  unfolding heard_text
  heard_text-Terminated p s ends early =
      let (text, found) = ends (body p) in
      (text, rw (le→leb (body p + 1024) 3072000 (omega arith)) found)

  text_branch-ends :
      (p : PacketIn) (s : State) (text : List ℕ)
      → heard_text s p ≡ some text
      → text_branch p s ≡ ok tt s
  unfolding text_branch
  text_branch-ends p s text heard = rw (text_branch, heard) refl

  frame_action-text :
      (p : PacketIn) (s : State) (text : List ℕ)
      → (p.eth_type == lldp_data) ≡ true
      → heard_text s p ≡ some text
      → frame_action e p s ≡ ok tt s
  unfolding frame_action
  frame_action-text p s text lldp heard =
      let kind : p.eth_type ≡ lldp_data = (==_iff p.eth_type lldp_data).0 lldp in
      simp (kind, text_branch-ends p s text heard)

  action_packout-text :
      (of_buffer : ℕ) (s : State)
      → ((packet_in s of_buffer).eth_type == lldp_data) ≡ true
      → Terminated s.read_buffer
      → of_buffer ≤ 3061760
      → let s1 = record s { transaction_id = (packet_in s of_buffer).xid } in
        Actions.action_packout e of_buffer s ≡ ok (last_test s1) s1
  unfolding Actions.action_packout
  action_packout-text of_buffer s lldp ends early =
      let at : (packet_in s of_buffer).of_buffer ≤ 3061760 =
        subst (λ (o : ℕ). o ≤ 3061760) (sym (packet_in-offset s of_buffer)) early in
      let p : PacketIn = packet_in s of_buffer in
      let s1 : State = record s { transaction_id = p.xid } in
      let (text, heard) = heard_text-Terminated p s1 ends at in
      rw (frame_action-text p s1 text lldp heard) refl

module _ (e : Env) (spared : Spared e) where
  action_packout-Kept :
      (of_buffer : ℕ) (s : State)
      → Sound s
      → Terminated s.read_buffer
      → of_buffer ≤ 3061760
      → Ends (λ _ s'. Kept s s') (Actions.action_packout e of_buffer s)
  action_packout-Kept of_buffer s sound ends early =
      let p : PacketIn = packet_in s of_buffer in
      elim (Bool-cases (p.eth_type == lldp_data)) [
        | inl lldp ↦ rw (action_packout-text e of_buffer s lldp ends early) (sound, refl)
        | inr other ↦ rw (action_packout-same e of_buffer s other) (
            Ends-weaken _ _ (λ r s' h. Managed-Kept e p s s' sound h.1) _
              (action_packout-Managed e spared of_buffer s sound.hosts_whole sound.distinct other))
      ]

  action_features_reply-Kept :
      (of_buffer : ℕ) (s : State)
      → Sound s
      → of_buffer + 32 + 48 * (0 + rounds (ports_in of_buffer s)) ≤ 3072000
      → Ends (λ _ s'. Kept s s') (action_features_reply e of_buffer s)
  unfolding action_features_reply list_rewind
  action_features_reply-Kept of_buffer s sound inside =
      let n = port_count (ntohs (get16 s.read_buffer (of_buffer + 2))) in
      elim (Bool-cases (n == 0)) [
        | inl z ↦ simp z (sound, refl)
        | inr nz ↦
            let s2 : State = record s {
              transaction_id = xid_of s of_buffer;
              no_of_ports = n;
              switch_id = datapath_at s of_buffer;
              sw_in = record { datapath_id = datapath_at s of_buffer; no_of_ports = n };
              threads = s.threads + 1;
            } in
            let (xs, a, ran) =
              add_ports-spared e spared (rounds n) of_buffer 0 s2 inside sound.ports_whole in
            let s3 : State = record s2 { ports = whole_table xs s.ports.cursor; allocations = a } in
            simp (nz, ran, show_ports-rewound e s3 refl sound.ports_start, send_config_lem)
              (IsSound-ports xs sound, refl)
      ]

  pub message_action-Kept :
      (kind of_buffer : ℕ) (s : State)
      → Sound s
      → Terminated s.read_buffer
      → of_buffer ≤ 3061760
      → Inside kind of_buffer s.read_buffer
      → Ends (λ _ s'. Kept s s') (message_action e kind of_buffer s)
  unfolding message_action
  message_action-Kept kind of_buffer s sound ends early inside =
      elim (Bool-cases (kind == ofpt_hello)) [
        | inl a ↦ simp a (action_hello-Kept e of_buffer s sound)
        | inr a ↦ elim (Bool-cases (kind == ofpt_features_reply)) [
          | inl b ↦
              simp (a, b)
                (action_features_reply-Kept of_buffer s sound
                  (Inside-ports kind of_buffer s.read_buffer b inside))
          | inr b ↦ elim (Bool-cases (kind == ofpt_packet_in)) [
            | inl c ↦ simp (a, b, c) (action_packout-Kept of_buffer s sound ends early)
            | inr c ↦ elim (Bool-cases (kind == ofpt_echo_request)) [
              | inl d ↦ simp (a, b, c, d) (action_echo-Kept e of_buffer s sound)
              | inr d ↦ simp (a, b, c, d) (sound, refl)
            ]
          ]
        ]
      ]

  act_on-Kept :
      (kind : ℕ) (s : State)
      → Sound s
      → Terminated s.read_buffer
      → Inside kind 0 s.read_buffer
      → Ends (λ _ s'. Kept s s') (act_on e kind 0 s)
  unfolding act_on
  act_on-Kept kind s sound ends inside =
      and_then-Ends (λ (_ : Ret) s'. Kept s s') (λ (_ : Ret) s'. Kept s s') _
        (λ r s' kept.
          if-Ends (λ (_ : Ret) s''. Kept s s'') (is_neg1 e r) (pure ret_neg1) (pure ret_0) s' kept
            kept)
        _ (message_action-Kept kind 0 s sound ends (omega arith) inside)

  only_message-Kept :
      (s : State)
      → Sound s
      → Terminated s.read_buffer
      → Inside (type_at s 0) 0 s.read_buffer
      → Ends (λ _ s'. Kept s s') (only_message e s)
  unfolding only_message
  only_message-Kept s sound ends inside = elim (Bool-cases (check_openflow s 0)) [
    | inl good ↦ simp good (act_on-Kept (type_at s 0) s sound ends inside)
    | inr other ↦ elim (Bool-cases (type_at s 0 == ofpt_hello)) [
      | inl hello ↦ simp (other, hello) (act_on-Kept ofpt_hello s sound ends (inl refl))
      | inr ignored ↦ simp (other, ignored) (sound, refl)
    ]
  ]

  message_action-Heard :
      (b : Buffer) (pos : ℕ) (s : State)
      → s.read_buffer ≡ b
      → Terminated b
      → Heard b pos
      → Sound s
      → Ends (λ _ s'. Kept s s') (message_action e (type_at s pos) pos s)
  message_action-Heard b pos s same ends heard sound =
      let here : Heard s.read_buffer pos = subst (λ (w : Buffer). Heard w pos) (sym same) heard in
      message_action-Kept (type_at s pos) pos s sound (subst Terminated (sym same) ends) here.1
        here.0.1

  -- Where no object gets its first allocation without the second, the tables are sound, every text in
  -- the bytes ends within 1024 bytes, and the first message, where it is a features reply, has its fixed
  -- part and lies in the buffer: `send_information` of version 2.1 comes to its end and returns, as with
  -- no mutex it never waits for one, unlike version 4.1, and the tables stay sound. For cbench this needs
  -- more fuel than bytes, and that every message that the loop comes to begins where one more has room,
  -- does not state the length 0, and is whole and in the buffer if it is a features reply.
  pub send_information-returns :
      (fuel : ℕ) (s : State)
      → Sound s
      → Terminated s.read_buffer
      → Inside (type_at s 0) 0 s.read_buffer
      → (s.cbench ≡ true
          → (bytes_read s < fuel)
            × Along (Heard s.read_buffer) (messages fuel (bytes_read s) 0 s.read_buffer))
      → Ends (λ _ s'. Kept s s') (send_information e fuel s)
  unfolding send_information
  send_information-returns fuel s sound ends inside enough = elim (Bool-cases s.cbench) [
    | inr off ↦ simp off (only_message-Kept s sound ends inside)
    | inl on ↦
        let (less, along) = enough on in
        simp on (
          message_loop-Kept e (message_action e) s.read_buffer (Heard s.read_buffer) fuel
            (bytes_read s) 0 s
            (λ pos s' same heard sound'.
              message_action-Heard s.read_buffer pos s' same ends heard sound')
            (λ o heard. heard.0.0) sound refl less along)
  ]
