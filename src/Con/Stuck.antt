-- ===== src/Con/Stuck.antt =====
-- The threads of ANIv41/_con.cpp, once links_mutex has been left locked.
use daim.Prelude.{ℕ, ◌≡◌, ◌∙◌, inl, inr, Bool, true, ◌==◌, leb, Bool-cases, Option-cases}
use mathlib.Core.Path.{subst}
use daim.Wire.Ofp.{lldp_data, ofpt_hello, ofpt_features_reply, ofpt_packet_in, ofpt_echo_request}
use daim.Con.State.{Env, State, Ret, deadlock, is_neg1}
use daim.Con.Reply.{action_hello, action_echo}
use daim.Con.Features.{rounds, action_features_reply}
use daim.Con.PacketIn.{PacketIn, packet_in}
use daim.Con.Branches.{action_packout}
use daim.Con.Dispatch.{action, goes_on, read_from_switch, reconnect}
use daim.Con.Sending.{send_hello_lem, send_features_request_lem, send_echo_reply_lem}
use daim.Con.Lldp.{action_packout-deadlock}
use daim.Con.Reconnect.{reconnect_lem, reconnected-Sound}
use daim.Con.Spared.{Spared}
use daim.Con.Managed.{Managed, Managed-Kept, action_packout-Managed}
use daim.Con.Invariant.{Sound, Safe, and_then-Safe, if-Safe, Ends-Safe, after_send-holds}
use daim.Con.Share.{ThreadPc, begin, echo, nodes, waiting, showing, share, share_nodes, share_links}
use daim.Con.Sharing.{send_echo_request_lem}
use daim.Con.Threads.{System, Step, reads, reconnects, acts, shares}

-- Sound tables and a mutex that is held, between the steps.
abbrev pub Held : State → Type 0
Held s = Sound s × (s.links_mutex ≡ true)

-- Any number of steps.
pub data Later (e : Env) : System → System → Type 0 where
  stay : (a : System) → Later e a a
  go : (a b c : System) → Later e a b → Step e b c → Later e a c

Managed-Held : (e : Env) (p : PacketIn) (s s' : State) → Held s → Managed e p s s' → Held s'
Managed-Held e p s s' (sound, held) (d, hosts, h, distinct) =
    ((Managed-Kept e p s s' sound (d, hosts, h, distinct)).0, h.mutex_same ∙ held)

module _ (e : Env) where
  features_reply_waits :
      (of_buffer : ℕ) (s : State)
      → s.links_mutex ≡ true
      → action_features_reply e of_buffer s ≡ deadlock
  unfolding action_features_reply
  features_reply_waits of_buffer s held = simp held

  share-Held : (pc : ThreadPc) (s : State) → Held s → Safe ⊥ (λ _ s'. Held s') (share e pc s)
  unfolding share share_nodes share_links
  share-Held begin s (sound, held) = simp held tt
  share-Held (echo portno n) s (sound, held) = elim (Bool-cases (leb portno (rounds n))) [
    | inl more ↦ simp (more, send_echo_request_lem) (sound, held)
    | inr done ↦ simp done (sound, held)
  ]
  share-Held nodes s (sound, held) = simp held tt
  share-Held waiting s (sound, held) = simp held tt
  share-Held showing s (sound, held) = simp held tt

  reconnect-Held : (s : State) → Held s → Safe (Unit {0}) (λ _ s'. Held s') (reconnect e s)
  reconnect-Held s (sound, held) =
      rw (reconnect_lem e s) (elim (Option-cases (e.accept s.accepts)) [
        | inl fails ↦ rw fails tt
        | inr (fd, works) ↦ rw works (reconnected-Sound e s sound, held)
      ])

  action_hello-Held : (of_buffer : ℕ) (s : State) → Held s → Held (action_hello e of_buffer s).1
  unfolding action_hello
  action_hello-Held of_buffer s held =
      simp (send_hello_lem, send_features_request_lem)
        (after_send-holds Held _ _ _ held (after_send-holds Held _ _ _ held held))

  action_echo-Held : (of_buffer : ℕ) (s : State) → Held s → Held (action_echo e of_buffer s).1
  unfolding action_echo
  action_echo-Held of_buffer s held =
      simp send_echo_reply_lem (after_send-holds Held _ _ _ held held)

module _ (e : Env) (spared : Spared e) where
  action_packout-Held :
      (of_buffer : ℕ) (s : State) → Held s → Safe ⊥ (λ _ s'. Held s') (action_packout e of_buffer s)
  action_packout-Held of_buffer s (sound, held) =
      let p : PacketIn = packet_in s of_buffer in
      elim (Bool-cases (p.eth_type == lldp_data)) [
        | inl lldp ↦ rw (action_packout-deadlock e of_buffer s lldp held) tt
        | inr other ↦
            Ends-Safe ⊥ _ _ (λ r s' h. Managed-Held e p s s' (sound, held) h.1) _
              (action_packout-Managed e spared of_buffer s sound.hosts_whole sound.distinct other)
      ]

  action-Held :
      (kind of_buffer : ℕ) (s : State)
      → Held s
      → Safe ⊥ (λ _ s'. Held s') (action e kind of_buffer s)
  unfolding action
  action-Held kind of_buffer s held = elim (Bool-cases (kind == ofpt_hello)) [
    | inl a ↦ simp a (action_hello-Held e of_buffer s held)
    | inr a ↦ elim (Bool-cases (kind == ofpt_features_reply)) [
      | inl b ↦ simp (a, b) (rw (features_reply_waits e of_buffer s held.1) tt)
      | inr b ↦ elim (Bool-cases (kind == ofpt_packet_in)) [
        | inl c ↦ simp (a, b, c) (action_packout-Held of_buffer s held)
        | inr c ↦ elim (Bool-cases (kind == ofpt_echo_request)) [
          | inl d ↦ simp (a, b, c, d) (action_echo-Held e of_buffer s held)
          | inr d ↦ simp (a, b, c, d) held
        ]
      ]
    ]
  ]

  goes_on-Held :
      (kind of_buffer : ℕ) (s : State)
      → Held s
      → Safe ⊥ (λ _ s'. Held s') (goes_on e kind of_buffer s)
  unfolding goes_on
  goes_on-Held kind of_buffer s held =
      and_then-Safe ⊥ (λ (_ : Ret) s'. Held s') (λ (_ : Bool) s'. Held s') _
        (λ r s' h. if-Safe ⊥ (λ (_ : Bool) s''. Held s'') (is_neg1 e r) _ _ s' h h) _
        (action-Held kind of_buffer s held)

  Step-Held : (a b : System) → Held a.main → Step e a b → Held b.main
  unfolding read_from_switch
  Step-Held _ _ held (reads s s' ts was_read ran) = subst (Safe ⊥ (λ (_ : Bool) t. Held t)) ran held
  Step-Held _ _ held (reconnects s s' ts ran) =
      subst (Safe (Unit {0}) (λ (_ : Unit {0}) t. Held t)) ran (reconnect-Held e s held)
  Step-Held _ _ held (acts s s' ts kind of_buffer on ran) =
      subst (Safe ⊥ (λ (_ : Bool) t. Held t)) ran (goes_on-Held kind of_buffer s held)
  Step-Held _ _ held (shares s s' before after pc pc' ran) =
      subst (Safe ⊥ (λ (_ : ThreadPc) t. Held t)) ran (share-Held e pc s held)

  Later-Held : (a b : System) → Held a.main → Later e a b → Held b.main
  Later-Held _ _ held (stay a) = held
  Later-Held _ _ held (go a b c before step) = Step-Held b c (Later-Held a b held before) step

  -- Where no object gets its first allocation without the second: once the mutex has been left locked and
  -- the tables are sound, no step of any thread ever releases it, not even a new connection. After any
  -- number of steps in any order, every features reply waits for ever, and so does every part of a
  -- sharing thread that takes the mutex.
  pub Later-deadlock :
      (a b : System)
      → Sound a.main
      → a.main.links_mutex ≡ true
      → Later e a b
      → (b.main.links_mutex ≡ true)
        × ((of_buffer : ℕ) → action_features_reply e of_buffer b.main ≡ deadlock)
        × (share e begin b.main ≡ deadlock)
        × (share e nodes b.main ≡ deadlock)
        × (share e waiting b.main ≡ deadlock)
        × (share e showing b.main ≡ deadlock)
  unfolding share share_nodes share_links
  Later-deadlock a b sound locked later =
      let (sound', held) = Later-Held a b (sound, locked) later in
      (
        held,
        (λ of_buffer. features_reply_waits e of_buffer b.main held),
        simp held,
        simp held,
        simp held,
        simp held,
      )
