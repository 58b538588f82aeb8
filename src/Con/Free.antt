-- ===== src/Con/Free.antt =====
-- links_mutex under the actions of the main thread.
use daim.Prelude.{
  ℕ, ◌+◌, ◌*◌, ◌≤◌, ◌≡◌, refl, ◌∙◌, ◌&&◌, inl, inr, Bool, true, false, ◌==◌, Bool-cases,
}
use daim.Wire.Ofp.{lldp_data, ofpt_hello, ofpt_features_reply, ofpt_packet_in, ofpt_echo_request}
use daim.Table.Ops.{list_rewind}
use daim.Con.State.{Env, State, Ret, Ends, is_neg1}
use daim.Con.Reply.{xid_of, action_hello, action_echo}
use daim.Con.Features.{rounds, record_switch, action_features_reply}
use daim.Con.PacketIn.{PacketIn, packet_in}
use daim.Con.Branches.{action_packout}
use daim.Con.Dispatch.{action, goes_on}
use daim.Con.Sending.{send_hello_lem, send_features_request_lem, send_echo_reply_lem}
use daim.Con.Ports.{
  ports_in, Inside, Inside-ports, datapath_at, show_ports-rewound, send_config_lem,
}
use daim.Con.Ends.{and_then-Ends, Ends-weaken, if-Ends}
use daim.Con.Spared.{Spared, whole_table, add_ports-spared}
use daim.Con.Managed.{
  Managed, Noted, Managed-Kept, Noted-Kept, action_packout-Managed, action_packout-Noted,
}
use daim.Con.Invariant.{IsSound-ports, Sound, Kept, after_send-holds}

-- Whether a message is a features reply without a port.
abbrev pub without_port : (kind of_buffer : ℕ) → State → Bool
without_port kind of_buffer s = (kind == ofpt_features_reply) && (ports_in of_buffer s == 0)

-- An action ends in a sound state with a free mutex, and leaves the bytes that were read.
abbrev pub Freed : State → State → Type 0
Freed s s' = Kept s s' × (s'.links_mutex ≡ false)

Managed-Freed :
    (e : Env) (p : PacketIn) (s s' : State)
    → Sound s
    → s.links_mutex ≡ false
    → Managed e p s s'
    → Freed s s'
Managed-Freed e p s s' sound free (d, hosts, h, distinct) =
    (Managed-Kept e p s s' sound (d, hosts, h, distinct), h.mutex_same ∙ free)

Noted-Freed : (s s' : State) → Sound s → Noted s s' → Freed s s'
Noted-Freed s s' sound h = (Noted-Kept s s' sound h, h.unlocked)

module _ (e : Env) where
  action_hello-Freed :
      (of_buffer : ℕ) (s : State)
      → Sound s
      → s.links_mutex ≡ false
      → Freed s (action_hello e of_buffer s).1
  unfolding action_hello
  action_hello-Freed of_buffer s sound free =
      simp (send_hello_lem, send_features_request_lem)
        (after_send-holds (Freed s) _ _ _ ((sound, refl), free)
          (after_send-holds (Freed s) _ _ _ ((sound, refl), free) ((sound, refl), free)))

  action_echo-Freed :
      (of_buffer : ℕ) (s : State)
      → Sound s
      → s.links_mutex ≡ false
      → Freed s (action_echo e of_buffer s).1
  unfolding action_echo
  action_echo-Freed of_buffer s sound free =
      simp send_echo_reply_lem
        (after_send-holds (Freed s) _ _ _ ((sound, refl), free) ((sound, refl), free))

and_rest : (a b : Bool) → a ≡ true → (a && b) ≡ false → b ≡ false
and_rest true b e f = f
and_rest false b e f = let no : ⊥ = cc in elim no [ ]

some_ports :
    (kind of_buffer : ℕ) (s : State)
    → (kind == ofpt_features_reply) ≡ true
    → without_port kind of_buffer s ≡ false
    → (ports_in of_buffer s == 0) ≡ false
some_ports kind of_buffer s b ports =
    and_rest (kind == ofpt_features_reply) (ports_in of_buffer s == 0) b ports

module _ (e : Env) (spared : Spared e) where
  action_features_reply-Freed :
      (of_buffer : ℕ) (s : State)
      → Sound s
      → s.links_mutex ≡ false
      → (ports_in of_buffer s == 0) ≡ false
      → of_buffer + 32 + 48 * (0 + rounds (ports_in of_buffer s)) ≤ 3072000
      → Ends (λ _ s'. Freed s s') (action_features_reply e of_buffer s)
  unfolding action_features_reply record_switch list_rewind
  action_features_reply-Freed of_buffer s sound free some_port inside =
      let n = ports_in of_buffer s in
      let s2 : State = record s {
        switch_id = datapath_at s of_buffer;
        links_mutex = true;
        transaction_id = xid_of s of_buffer;
        no_of_ports = n;
        threads = s.threads + 1;
      } in
      let (xs, a, ran) =
        add_ports-spared e spared (rounds n) of_buffer 0 s2 inside sound.ports_whole in
      let s3 : State = record s2 {
        ports = whole_table xs s.ports.cursor;
        allocations = a;
        links_mutex = false;
      } in
      simp (free, some_port, ran, show_ports-rewound e s3 refl sound.ports_start, send_config_lem)
        ((IsSound-ports xs sound, refl), refl)

  action_packout-Freed :
      (of_buffer : ℕ) (s : State)
      → Sound s
      → s.links_mutex ≡ false
      → Ends (λ _ s'. Freed s s') (action_packout e of_buffer s)
  action_packout-Freed of_buffer s sound free =
      let p : PacketIn = packet_in s of_buffer in
      elim (Bool-cases (p.eth_type == lldp_data)) [
        | inr other ↦
            Ends-weaken _ _ (λ r s' h. Managed-Freed e p s s' sound free h.1) _
              (action_packout-Managed e spared of_buffer s sound.hosts_whole sound.distinct other)
        | inl lldp ↦
            Ends-weaken _ _ (λ r s' h. Noted-Freed s s' sound h.1) _
              (action_packout-Noted e spared of_buffer s lldp free sound.replys_whole
                sound.links_whole)
      ]

  action-Freed :
      (kind of_buffer : ℕ) (s : State)
      → Sound s
      → s.links_mutex ≡ false
      → without_port kind of_buffer s ≡ false
      → Inside kind of_buffer s.read_buffer
      → Ends (λ _ s'. Freed s s') (action e kind of_buffer s)
  unfolding action
  action-Freed kind of_buffer s sound free ports inside = elim (Bool-cases (kind == ofpt_hello)) [
    | inl a ↦ simp a (action_hello-Freed e of_buffer s sound free)
    | inr a ↦ elim (Bool-cases (kind == ofpt_features_reply)) [
      | inl b ↦
          simp (a, b)
            (action_features_reply-Freed of_buffer s sound free
              (some_ports kind of_buffer s b ports)
              (Inside-ports kind of_buffer s.read_buffer b inside))
      | inr b ↦ elim (Bool-cases (kind == ofpt_packet_in)) [
        | inl c ↦ simp (a, b, c) (action_packout-Freed of_buffer s sound free)
        | inr c ↦ elim (Bool-cases (kind == ofpt_echo_request)) [
          | inl d ↦ simp (a, b, c, d) (action_echo-Freed e of_buffer s sound free)
          | inr d ↦ simp (a, b, c, d) ((sound, refl), free)
        ]
      ]
    ]
  ]

  -- Every action ends, and gives the mutex back.
  pub goes_on-Freed :
      (kind of_buffer : ℕ) (s : State)
      → Sound s
      → s.links_mutex ≡ false
      → without_port kind of_buffer s ≡ false
      → Inside kind of_buffer s.read_buffer
      → Ends (λ _ s'. Freed s s') (goes_on e kind of_buffer s)
  unfolding goes_on
  goes_on-Freed kind of_buffer s sound free ports inside =
      and_then-Ends (λ (_ : Ret) s'. Freed s s') (λ (_ : Bool) s'. Freed s s') _
        (λ r s' h. if-Ends (λ (_ : Bool) s''. Freed s s'') (is_neg1 e r) _ _ s' h h) _
        (action-Freed kind of_buffer s sound free ports inside)
