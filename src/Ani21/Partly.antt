-- ===== src/Ani21/Partly.antt =====
-- The actions of ANIv21/_con.cpp on any features reply at all: what they leave where they end.
use daim.Prelude.{ℕ, ◌+◌, ◌≤◌, ◌≡◌, refl, inl, inr, false, arith, ◌==◌, Bool-cases}
use daim.Wire.Ofp.{ofpt_hello, ofpt_features_reply}
use daim.Table.Ops.{list_rewind}
use daim.Con.State.{Env, State, Ret}
use daim.Con.Reply.{xid_of}
use daim.Con.Features.{rounds}
use daim.Con.Ports.{ports_in, datapath_at, show_ports-rewound, send_config_lem}
use daim.Con.Spared.{Spared, whole_table, add_ports-either}
use daim.Con.Invariant.{IsSound-ports, Sound, Kept, Partly, Ends-Partly}
use daim.Ani21.Actions.{action_features_reply}
use daim.Ani21.Dispatch.{message_action}
use daim.Ani21.Loop.{Terminated, message_action-Kept}

module _ (e : Env) (spared : Spared e) where
  action_features_reply-Partly :
      (of_buffer : ℕ) (s : State)
      → Sound s
      → Partly (λ _ s'. Kept s s') (action_features_reply e of_buffer s)
  unfolding action_features_reply list_rewind
  action_features_reply-Partly of_buffer s sound =
      let n = ports_in of_buffer s in
      elim (Bool-cases (n == 0)) [
        | inl z ↦ simp z (sound, refl)
        | inr nz ↦
            let s2 : State = record s {
              transaction_id = xid_of s of_buffer;
              no_of_ports = n;
              switch_id = datapath_at s of_buffer;
              sw_in = record { datapath_id = datapath_at s of_buffer; no_of_ports = n };
              threads = s.threads + 1;
            } in
            elim (add_ports-either e spared (rounds n) of_buffer 0 s2 sound.ports_whole) [
              | inl bad ↦ simp (nz, bad) tt
              | inr (xs, a, ran) ↦
                  let s3 : State = record s2 {
                    ports = whole_table xs s.ports.cursor;
                    allocations = a;
                  } in
                  simp (nz, ran, show_ports-rewound e s3 refl sound.ports_start, send_config_lem)
                    (IsSound-ports xs sound, refl)
            ]
      ]

  pub message_action-Partly :
      (kind of_buffer : ℕ) (s : State)
      → Sound s
      → Terminated s.read_buffer
      → of_buffer ≤ 3061760
      → Partly (λ _ s'. Kept s s') (message_action e kind of_buffer s)
  unfolding message_action
  message_action-Partly kind of_buffer s sound ends early =
      elim (Bool-cases (kind == ofpt_features_reply)) [
        | inr other ↦
            Ends-Partly (λ (_ : Ret) s'. Kept s s') (message_action e kind of_buffer s)
              (message_action-Kept e spared kind of_buffer s sound ends early (inl other))
        | inl reply ↦
            let hello : (kind == ofpt_hello) ≡ false = ground arith in
            simp (hello, reply) (action_features_reply-Partly of_buffer s sound)
      ]
