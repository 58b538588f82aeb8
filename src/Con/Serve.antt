-- ===== src/Con/Serve.antt =====
-- What `communicate_with_switch` keeps, and what it does when the connection is lost.
use daim.Prelude.{
  ℕ, ◌<◌, ◌≡◌, refl, inl, inr, Bool, true, false, none, some, ◌==◌, if◌then◌else◌, Bool-cases,
  Option-cases,
}
use daim.Wire.Ofp.{ofp_version, ofpt_hello}
use daim.Wire.Order.{ntohl}
use daim.Wire.Buffer.{zeros, get32}
use daim.Con.State.{
  Env, State, initial, Ret, ret_0, ret_neg1, ok, exited, M, Ends, and_then, is_neg1, pure, ◌>>=◌,
}
use daim.Con.Reply.{check_openflow, action_hello, xid_of}
use daim.Con.Dispatch.{
  goes_on, action, type_at, bytes_read, first_message, send_information, reconnect,
  communicate_with_switch,
}
use daim.Con.Greeting.{
  tested, carries_on, hello_trace, features_trace, Greeted, action_hello-Greeted,
}
use daim.Con.Ports.{Inside}
use daim.Con.Messages.{AllProper}
use daim.Con.Spared.{Spared}
use daim.Con.Invariant.{Sound, Kept, Safe, and_then-Safe, if-Safe}
use daim.Con.Safety.{goes_on-Safe}
use daim.Con.Cbench.{cbench_loop-Safe}
use daim.Con.Reconnect.{
  reconnected, reconnect_lem, reconnected-Sound, Lost, lost_state, read_from_switch-Lost,
}

module _ (e : Env) (spared : Spared e) where
  first_message-Safe :
      (s : State)
      → Sound s
      → Inside (type_at s 0) 0 s.read_buffer
      → Safe ⊥ (λ _ s'. Kept s s') (first_message e s)
  unfolding first_message
  first_message-Safe s sound inside =
      let handled : (kind : ℕ)
          → Inside kind 0 s.read_buffer
          → Safe ⊥ (λ (_ : Ret) s'. Kept s s')
              (and_then (goes_on e kind 0 s) (λ on. if on then pure ret_0 else pure ret_neg1)) =
        λ kind inside'.
          and_then-Safe ⊥ (λ (_ : Bool) s'. Kept s s') (λ (_ : Ret) s'. Kept s s') _
            (λ on s' kept. if-Safe ⊥ (λ (_ : Ret) s''. Kept s s'') on _ _ s' kept kept) _
            (goes_on-Safe e spared ⊥ kind 0 s sound inside') in
      elim (Bool-cases (check_openflow s 0)) [
        | inl good ↦ simp good (handled (type_at s 0) inside)
        | inr other ↦ elim (Bool-cases (type_at s 0 == ofpt_hello)) [
          | inl hello ↦ simp (other, hello) (handled ofpt_hello (inl refl))
          | inr ignored ↦ simp (other, ignored) (sound, refl)
        ]
      ]

  -- Where no object gets its first allocation without the second and the tables are sound,
  -- `send_information` comes to its end, by a return or waiting for a mutex that is never given
  -- back, with sound tables and the bytes it was given, if the first message, where it is a features
  -- reply, has its fixed part and lies in the buffer. For cbench this needs more fuel than bytes, and
  -- that among the messages that the loop comes to none states the length 0, and every features reply
  -- has its fixed part and lies in the buffer.
  pub send_information-ends :
      (fuel : ℕ) (s : State)
      → Sound s
      → Inside (type_at s 0) 0 s.read_buffer
      → (s.cbench ≡ true → (bytes_read s < fuel) × AllProper fuel (bytes_read s) 0 s.read_buffer)
      → Safe ⊥ (λ _ s'. Kept s s') (send_information e fuel s)
  unfolding send_information
  send_information-ends fuel s sound inside enough = elim (Bool-cases s.cbench) [
    | inl on ↦
        let (less, proper) = enough on in
        simp on (cbench_loop-Safe e spared fuel (bytes_read s) 0 s sound less proper)
    | inr off ↦ simp off (first_message-Safe s sound inside)
  ]

-- What `communicate_with_switch` does once it has read.
abbrev verdict : Env → Ret → M Ret
verdict e r = if is_neg1 e r then pure ret_neg1 else pure ret_0

abbrev answer : Env → (fuel : ℕ) → M Ret
answer e fuel = send_information e fuel >>= verdict e

module _ (e : Env) (spared : Spared e) where
  pub reconnect-Safe : (s : State) → Sound s → Safe (Unit {0}) (λ _ s'. Sound s') (reconnect e s)
  reconnect-Safe s sound = rw (reconnect_lem e s) (elim (Option-cases (e.accept s.accepts)) [
    | inl fails ↦ rw fails tt
    | inr (fd, works) ↦ rw works (reconnected-Sound e s sound)
  ])

-- The states in which `main` calls `communicate_with_switch`: the first one, once `accept` has given
-- a descriptor, and those after a call that did not return -1.
pub data Reachable (e : Env) : State → Type 0 where
  start :
      (cbench : Bool) (fd : ℕ)
      → Reachable e (record (initial cbench) { sw_sockfd = some fd; accepts = 1 })
  served :
      (fuel : ℕ) (s s' : State)
      → Reachable e s
      → communicate_with_switch e fuel s ≡ ok ret_0 s'
      → Reachable e s'

module _ (e : Env) where
  -- Where `recv` fails or gives 0 bytes, and `accept` fails too, the program exits, with the old
  -- connection closed and the tables freed, and without sending anything.
  pub communicate_with_switch-exited :
      (fuel : ℕ) (s : State)
      → Lost (e.recv s.recvs).count
      → e.accept s.accepts ≡ none
      → communicate_with_switch e fuel s ≡ exited (reconnected e (lost_state e s))
  unfolding communicate_with_switch
  communicate_with_switch-exited fuel s lost fails =
      simp (read_from_switch-Lost e s lost, reconnect_lem, fails)

  -- A buffer of zeros is taken for a hello, since its version is none of OpenFlow's.
  answer-zeros :
      (fuel : ℕ) (s : State)
      → s.cbench ≡ false
      → s.read_buffer ≡ zeros
      → let h = action_hello e 0 s in
        answer e fuel s ≡ ok (if is_neg1 e h.0 then ret_neg1 else ret_0) h.1
  unfolding send_information first_message goes_on action check_openflow
  answer-zeros fuel s no_cbench blank =
      let version : (s.read_buffer 0 == ofp_version) ≡ false = rw blank refl in
      let kind : (s.read_buffer 1 == ofpt_hello) ≡ true = rw blank refl in
      elim (Bool-cases (is_neg1 e (action_hello e 0 s).0)) [
        | inl fails ↦ simp (no_cbench, version, kind, fails)
        | inr works ↦ simp (no_cbench, version, kind, works)
      ]

  -- Where `recv` fails or gives 0 bytes, `accept` gives a new connection, and the program does not run
  -- for cbench, the call ends, and it has treated the emptied buffer as a hello: it sends a hello with
  -- the transaction id 0 and, if that was sent, a features request with 1. What the two calls of
  -- `send` return decides whether it fails.
  pub communicate_with_switch-Lost :
      (fuel fd : ℕ) (s : State)
      → Lost (e.recv s.recvs).count
      → e.accept s.accepts ≡ some fd
      → s.cbench ≡ false
      → Ends
          (λ r s'.
            let c1 = e.send (hello_trace s.sent 0) in
            let c2 = e.send (features_trace s.sent 0) in
            (r ≡ (if is_neg1 e (tested c1 (tested c2 ret_0)) then ret_neg1 else ret_0))
            × (s'.sent ≡ carries_on c1 (hello_trace s.sent 0) (features_trace s.sent 0)))
          (communicate_with_switch e fuel s)
  unfolding communicate_with_switch xid_of get32 ntohl
  communicate_with_switch-Lost fuel fd s lost works no_cbench =
      let s1 : State = reconnected e (lost_state e s) in
      let s2 : State = record s1 { sw_sockfd = some fd } in
      let g : Greeted s2 0 _ _ (action_hello e 0 s2) = action_hello-Greeted e 0 s2 in
      simp (read_from_switch-Lost e s lost, reconnect_lem, works)
        (rw (answer-zeros fuel s2 no_cbench refl) (rw (g.returned) refl, g.messages))
