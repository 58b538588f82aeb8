-- ===== src/Con/Lldp.antt =====
-- `action_packout` on LLDP frames: the messages that switches' controllers send each other.
use daim.Prelude.{
  ℕ, ◌≡◌, refl, inl, inr, true, false, [], ◌∷◌, ◌++◌, arith, ◌==◌, append-nil, if◌then◌else◌,
  Bool-cases,
}
use daim.Wire.Ofp.{
  arp_data, ip_data, ip6_data, lldp_data, anim_echo_request, anim_echo_reply, anim_node,
}
use daim.Wire.Anim.{envelope_format}
use daim.Table.Ops
use daim.Table.Ops.{Table, granted, add_whole}
use daim.Con.State.{Env, State, deadlock, Ends}
use daim.Con.PacketIn.{PacketIn, body, packet_in, link_of}
use daim.Con.Branches.{
  add_reply, add_link, anim_message, lldp_branch, frame_branch, last_test, action_packout,
}
use daim.Con.Sending.{send_echo_lem}
use daim.Con.Packet.{after_frame}

-- The outcome of an LLDP frame that carries the message `kind`: an echo request is answered, an echo
-- reply and a node message enter their tables, and others change nothing.
pub record Announced (p : PacketIn) (kind : ℕ) (s s' : State) : Type 0 where
  pub messages : s'.sent ≡ (
      if kind == anim_echo_request
      then (envelope_format 42 p.in_port ++ anim_echo_reply ∷ 0 ∷ 0 ∷ 4 ∷ []) ∷ s.sent
      else s.sent)
  pub replys :
      s'.sw_replys.items
      ≡ s.sw_replys.items
        ++ (if kind == anim_echo_reply then record { port_no = p.in_port; rec = true } ∷ [] else [])
  pub reported :
      s'.links.items ≡ s.links.items ++ (if kind == anim_node then link_of s p ∷ [] else [])
  pub counter : s'.anim_node_counter ≡ (if kind == anim_node then 0 else s.anim_node_counter)
  pub replys_whole : s'.sw_replys.broken ≡ false
  pub links_whole : s'.links.broken ≡ false
  pub links_cursor : s'.links.cursor ≡ s.links.cursor
  pub replys_cursor : s'.sw_replys.cursor ≡ s.sw_replys.cursor
  pub unlocked : s'.links_mutex ≡ false
  pub hosts_same : s'.hosts ≡ s.hosts
  pub ports_same : s'.ports ≡ s.ports
  pub buffer_same : s'.read_buffer ≡ s.read_buffer

module _ (e : Env) where
  pub lldp_branch-Announced :
      (p : PacketIn) (s : State)
      → ((k : ℕ) → e.grant k ≡ granted)
      → s.links_mutex ≡ false
      → s.sw_replys.broken ≡ false
      → s.links.broken ≡ false
      → Ends (λ _ s'. Announced p (s.read_buffer (body p)) s s') (lldp_branch e p s)
  unfolding lldp_branch anim_message add_reply add_link Ops.add_object add_whole link_of
  lldp_branch-Announced p s grants free replys_ok links_ok =
      elim (Bool-cases (s.read_buffer (body p) == anim_echo_request)) [
        | inl a ↦
            let b : (s.read_buffer (body p) == anim_echo_reply) ≡ false = ground arith in
            let c : (s.read_buffer (body p) == anim_node) ≡ false = ground arith in
            simp (free, a, b, c, send_echo_lem)
              (record {
                messages = simp a;
                replys = simp (b, append-nil);
                reported = simp (c, append-nil);
                counter = simp c;
                replys_whole = replys_ok;
                links_whole = links_ok;
                links_cursor = refl;
                replys_cursor = refl;
                unlocked = refl;
                hosts_same = refl;
                ports_same = refl;
                buffer_same = refl;
              })
        | inr a ↦ elim (Bool-cases (s.read_buffer (body p) == anim_echo_reply)) [
          | inl b ↦
              let c : (s.read_buffer (body p) == anim_node) ≡ false = ground arith in
              simp (free, a, b, c, replys_ok, grants)
                (record {
                  messages = simp a;
                  replys = simp (b, append-nil);
                  reported = simp (c, append-nil);
                  counter = simp c;
                  replys_whole = refl;
                  links_whole = links_ok;
                  links_cursor = refl;
                  replys_cursor = refl;
                  unlocked = refl;
                  hosts_same = refl;
                  ports_same = refl;
                  buffer_same = refl;
                })
          | inr b ↦ elim (Bool-cases (s.read_buffer (body p) == anim_node)) [
            | inl c ↦
                simp (free, a, b, c, links_ok, grants)
                  (record {
                    messages = simp a;
                    replys = simp (b, append-nil);
                    reported = simp (c, append-nil);
                    counter = simp c;
                    replys_whole = replys_ok;
                    links_whole = refl;
                    links_cursor = refl;
                    replys_cursor = refl;
                    unlocked = refl;
                    hosts_same = refl;
                    ports_same = refl;
                    buffer_same = refl;
                  })
            | inr c ↦
                simp (free, a, b, c)
                  (record {
                    messages = simp a;
                    replys = simp (b, append-nil);
                    reported = simp (c, append-nil);
                    counter = simp c;
                    replys_whole = replys_ok;
                    links_whole = links_ok;
                    links_cursor = refl;
                    replys_cursor = refl;
                    unlocked = refl;
                    hosts_same = refl;
                    ports_same = refl;
                    buffer_same = refl;
                  })
          ]
        ]
      ]

  pub lldp_frame :
      (p : PacketIn) (s : State)
      → (p.eth_type == lldp_data) ≡ true
      → frame_branch e p s ≡ lldp_branch e p s
  unfolding frame_branch
  lldp_frame p s lldp =
      let a : (p.eth_type == ip6_data) ≡ false = ground arith in
      let b : (p.eth_type == arp_data) ≡ false = ground arith in
      let c : (p.eth_type == ip_data) ≡ false = ground arith in simp (a, b, c, lldp)

  Announced-xid :
      (p : PacketIn) (kind : ℕ) (s : State) (xid : ℕ) (s' : State)
      → Announced p kind (record s { transaction_id = xid }) s'
      → Announced p kind s s'
  unfolding link_of
  Announced-xid p kind s xid s' h = record {
    messages = h.messages;
    replys = h.replys;
    reported = h.reported;
    counter = h.counter;
    replys_whole = h.replys_whole;
    links_whole = h.links_whole;
    links_cursor = h.links_cursor;
    replys_cursor = h.replys_cursor;
    unlocked = h.unlocked;
    hosts_same = h.hosts_same;
    ports_same = h.ports_same;
    buffer_same = h.buffer_same;
  }

  -- Where every allocation is granted, the mutex is free and the tables of links and replies are
  -- whole, `action_packout` comes to its end on an LLDP frame: an echo request is answered by an echo
  -- reply through the port on which it came in, an echo reply enters the table of replies, a node
  -- message enters the link that it reports and resets the counter, any other message changes none
  -- of these; the mutex is free again, and hosts, ports and buffer stay.
  pub action_packout-Announced :
      (of_buffer : ℕ) (s : State)
      → ((k : ℕ) → e.grant k ≡ granted)
      → ((packet_in s of_buffer).eth_type == lldp_data) ≡ true
      → s.links_mutex ≡ false
      → s.sw_replys.broken ≡ false
      → s.links.broken ≡ false
      → Ends
          (λ r s'.
            (r ≡ last_test s')
            × Announced (packet_in s of_buffer) (s.read_buffer (body (packet_in s of_buffer))) s s')
          (action_packout e of_buffer s)
  unfolding action_packout
  action_packout-Announced of_buffer s grants lldp free replys_ok links_ok =
      let p : PacketIn = packet_in s of_buffer in
      let s1 : State = record s { transaction_id = p.xid } in
      after_frame _ _ (λ s'. Announced-xid p (s.read_buffer (body p)) s p.xid s')
        (frame_branch e p s1)
        (rw (lldp_frame p s1 lldp) (lldp_branch-Announced p s1 grants free replys_ok links_ok))

  -- An LLDP frame that comes while the mutex has been left locked makes the thread wait for itself.
  pub action_packout-deadlock :
      (of_buffer : ℕ) (s : State)
      → ((packet_in s of_buffer).eth_type == lldp_data) ≡ true
      → s.links_mutex ≡ true
      → action_packout e of_buffer s ≡ deadlock
  unfolding action_packout lldp_branch
  action_packout-deadlock of_buffer s lldp held =
      let p : PacketIn = packet_in s of_buffer in
      let s1 : State = record s { transaction_id = p.xid } in rw (lldp_frame p s1 lldp) (simp held)
