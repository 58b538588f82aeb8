-- ===== src/Ani1/Loop.antt =====
-- `send_information` of ANIv1/main.cpp, and the invariant of the tables.
use daim.Prelude.{
  ℕ, zero, suc, ◌+◌, ◌-◌, ◌*◌, ◌≤◌, ◌<◌, ◌≡◌, refl, sym, ◌∙◌, inl, inr, true, arith, ◌==◌, le→leb,
  Bool-cases,
}
use mathlib.Core.Path.{subst}
use daim.Wire.Order.{ntohs}
use daim.Wire.Buffer.{Buffer, get16}
use daim.Wire.Ofp.{ofp_version, ofpt_hello, ofpt_features_reply, ofpt_packet_in, ofpt_echo_request}
use daim.Table.Ops.{list_rewind}
use daim.Con.State.{Env, State, Ret, ret_neg1, M, Ends, is_neg1, pure}
use daim.Con.Reply.{check_openflow, xid_of}
use daim.Con.Features.{port_count, rounds}
use daim.Con.PacketIn.{packet_in}
use daim.Con.Dispatch.{type_at, length_at, bytes_read}
use daim.Con.Ports.{ports_in, Inside, Inside-ports, datapath_at, show_ports-rewound}
use daim.Con.Spared.{Spared, whole_table, add_ports-spared}
use daim.Con.Managed.{Managed-Kept}
use daim.Ani1.Managed.{action_packout-Managed}
use daim.Con.Invariant.{IsSound-ports, Sound, Kept, after_send-holds}
use daim.Con.Ends.{and_then-Ends, Ends-weaken, if-Ends}
use daim.Con.Messages.{size_at, messages, messages-next, Along, Proper}
use daim.Con.Cbench.{Kept-trans, shorter}
use daim.Ani1.Handlers.{
  copy_fits, action_hello, hello_back, request_features, send_bytes, action_echo, echo_back,
  action_features_reply, action_packout,
}
use daim.Ani1.Main.{run_action, message_loop, send_information}
use daim.Ani1.Sending.{configure_lem}

-- A message that version 1 can copy: not of the length 0, with at most the 10240 bytes of
-- `write_buffer`, in the buffer, and with its fixed part if it is a features reply.
abbrev pub Copied : Buffer → (o : ℕ) → Type 0
Copied b o = Proper b o × (size_at b o ≤ 10240) × (o + size_at b o ≤ 3072000)

-- The loop over the messages of the buffer `b`, where `act` keeps the tables sound on every message at
-- an offset that meets `P`.
module _ (e : Env) (act : (kind of_buffer : ℕ) → M Ret) (b : Buffer) (P : ℕ → Type 0) where
  abbrev pub Keeps : Type 0
  Keeps =
      (pos : ℕ) (s : State)
      → s.read_buffer ≡ b
      → P pos
      → Sound s
      → Ends (λ _ s'. Kept s s') (act (type_at s pos) pos s)

  pub message_loop-Kept :
      (fuel counter pos : ℕ) (s : State)
      → Keeps
      → ((o : ℕ) → P o → 0 < size_at b o)
      → Sound s
      → s.read_buffer ≡ b
      → counter < fuel
      → Along P (messages fuel counter pos b)
      → Ends (λ _ s'. Kept s s') (message_loop e act fuel counter pos s)
  unfolding message_loop check_openflow
  message_loop-Kept zero counter pos s keeps long sound same less along = absurd (omega arith)
  message_loop-Kept (suc fuel) counter pos s keeps long sound same less along =
      elim (Bool-cases (counter == 0)) [
        | inl z ↦ simp z (sound, refl)
        | inr nz ↦ elim (Bool-cases (s.read_buffer pos == ofp_version)) [
          | inr bad ↦ simp (nz, bad) (sound, refl)
          | inl good ↦
              let version : (b pos == ofp_version) ≡ true =
                subst (λ (w : Buffer). (w pos == ofp_version) ≡ true) same good in
              let size : ℕ = length_at s pos in
              let (here, rest) : P pos
                  × Along P (messages fuel (counter - size_at b pos) (pos + size_at b pos) b) =
                subst (Along P) (messages-next fuel counter pos b nz version) along in
              let rest' : Along P (messages fuel (counter - size) (pos + size) b) =
                subst
                  (λ (w : Buffer).
                    Along P (messages fuel (counter - size_at w pos) (pos + size_at w pos) b))
                  (sym same) rest in
              let some_long : 0 < size =
                subst (λ (w : Buffer). 0 < size_at w pos) (sym same) (long pos here) in
              simp (nz, good)
                (and_then-Ends (λ (_ : Ret) s'. Kept s s') (λ (_ : Ret) s'. Kept s s') _
                  (λ r s' kept.
                    if-Ends (λ (_ : Ret) s''. Kept s s'') (is_neg1 e r) (pure ret_neg1)
                      (message_loop e act fuel (counter - size) (pos + size)) s' kept
                      (Ends-weaken (λ _ s''. Kept s' s'') (λ _ s''. Kept s s'')
                        (λ _ s'' next. Kept-trans s s' s'' kept next) _
                        (message_loop-Kept fuel (counter - size) (pos + size) s' keeps long kept.0
                          (kept.1 ∙ same) (shorter fuel counter size nz less some_long) rest')))
                  _ (keeps pos s same here sound))
        ]
      ]

module _ (e : Env) (spared : Spared e) where
  action_hello-Kept :
      (of_buffer : ℕ) (s : State)
      → copy_fits s of_buffer ≡ true
      → Sound s
      → Ends (λ _ s'. Kept s s') (action_hello e of_buffer s)
  unfolding action_hello hello_back request_features send_bytes
  action_hello-Kept of_buffer s fits sound = simp fits (
      after_send-holds (Kept s) _ _ _ (sound, refl)
        (after_send-holds (Kept s) _ _ _ (sound, refl) (sound, refl)))

  action_echo-Kept :
      (of_buffer : ℕ) (s : State)
      → copy_fits s of_buffer ≡ true
      → Sound s
      → Ends (λ _ s'. Kept s s') (action_echo e of_buffer s)
  unfolding action_echo echo_back send_bytes
  action_echo-Kept of_buffer s fits sound =
      simp fits (after_send-holds (Kept s) _ _ _ (sound, refl) (sound, refl))

  action_features_reply-Kept :
      (of_buffer : ℕ) (s : State)
      → Sound s
      → of_buffer + 32 + 48 * (0 + rounds (ports_in of_buffer s)) ≤ 3072000
      → Ends (λ _ s'. Kept s s') (action_features_reply e of_buffer s)
  unfolding action_features_reply list_rewind
  action_features_reply-Kept of_buffer s sound inside =
      let n = port_count (ntohs (get16 s.read_buffer (of_buffer + 2))) in
      elim (Bool-cases (n == 0)) [
        | inl z ↦ simp z (sound, refl)
        | inr nz ↦
            let s2 : State = record s {
              switch_id = datapath_at s of_buffer;
              transaction_id = xid_of s of_buffer;
            } in
            let (xs, a, ran) =
              add_ports-spared e spared (rounds n) of_buffer 0 s2 inside sound.ports_whole in
            let s3 : State = record s2 { ports = whole_table xs s.ports.cursor; allocations = a } in
            simp (nz, ran, show_ports-rewound e s3 refl sound.ports_start, configure_lem)
              (IsSound-ports xs sound, refl)
      ]

  action_packout-Kept :
      (of_buffer : ℕ) (s : State)
      → Sound s
      → Ends (λ _ s'. Kept s s') (action_packout e of_buffer s)
  action_packout-Kept of_buffer s sound =
      Ends-weaken _ _ (λ r s' h. Managed-Kept e (packet_in s of_buffer) s s' sound h.1) _
        (action_packout-Managed e spared of_buffer s sound.hosts_whole sound.distinct)

  run_action-Kept :
      (kind of_buffer : ℕ) (s : State)
      → copy_fits s of_buffer ≡ true
      → Inside kind of_buffer s.read_buffer
      → Sound s
      → Ends (λ _ s'. Kept s s') (run_action e kind of_buffer s)
  unfolding run_action
  run_action-Kept kind of_buffer s fits inside sound = elim (Bool-cases (kind == ofpt_hello)) [
    | inl a ↦ simp a (action_hello-Kept of_buffer s fits sound)
    | inr a ↦ elim (Bool-cases (kind == ofpt_features_reply)) [
      | inl b ↦
          simp (a, b)
            (action_features_reply-Kept of_buffer s sound
              (Inside-ports kind of_buffer s.read_buffer b inside))
      | inr b ↦ elim (Bool-cases (kind == ofpt_packet_in)) [
        | inl c ↦ simp (a, b, c) (action_packout-Kept of_buffer s sound)
        | inr c ↦ elim (Bool-cases (kind == ofpt_echo_request)) [
          | inl d ↦ simp (a, b, c, d) (action_echo-Kept of_buffer s fits sound)
          | inr d ↦ simp (a, b, c, d) (sound, refl)
        ]
      ]
    ]
  ]

  copy_fits-Copied :
      (of_buffer : ℕ) (s : State) → Copied s.read_buffer of_buffer → copy_fits s of_buffer ≡ true
  unfolding copy_fits
  copy_fits-Copied of_buffer s (proper, len, room) = simp (
    le→leb (length_at s of_buffer) 10240 len,
    le→leb (of_buffer + length_at s of_buffer) 3072000 room,
  )

  run_action-Copied :
      (b : Buffer) (pos : ℕ) (s : State)
      → s.read_buffer ≡ b
      → Copied b pos
      → Sound s
      → Ends (λ _ s'. Kept s s') (run_action e (type_at s pos) pos s)
  run_action-Copied b pos s same copied sound =
      let here : Copied s.read_buffer pos =
        subst (λ (w : Buffer). Copied w pos) (sym same) copied in
      run_action-Kept (type_at s pos) pos s (copy_fits-Copied pos s here) here.0.1 sound

  -- Where no object gets its first allocation without the second, the tables are sound, and there is
  -- more fuel than bytes, and where every message that the loop comes to states a length from 1 to 10240,
  -- lies in the buffer, and has its fixed part if it is a features reply: `send_information` of version 1
  -- comes to its end and returns, with sound tables, distinct host addresses and the bytes it was given.
  pub send_information-Kept :
      (fuel : ℕ) (s : State)
      → Sound s
      → bytes_read s < fuel
      → Along (Copied s.read_buffer) (messages fuel (bytes_read s) 0 s.read_buffer)
      → Ends (λ _ s'. Kept s s') (send_information e fuel s)
  unfolding send_information
  send_information-Kept fuel s sound less along =
      message_loop-Kept e (run_action e) s.read_buffer (Copied s.read_buffer) fuel (bytes_read s) 0
        s (λ pos s' same copied sound'. run_action-Copied s.read_buffer pos s' same copied sound')
        (λ o copied. copied.0.0) sound refl less along
