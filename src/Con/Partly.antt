-- ===== src/Con/Partly.antt =====
-- The actions on any message at all: what they leave where they end.
use daim.Prelude.{ℕ, ◌+◌, ◌≡◌, refl, inl, inr, Bool, true, false, arith, ◌==◌, Bool-cases}
use daim.Wire.Ofp.{ofpt_hello, ofpt_features_reply}
use daim.Table.Ops.{list_rewind}
use daim.Con.State.{Env, State, Ret, is_neg1}
use daim.Con.Reply.{xid_of}
use daim.Con.Features.{rounds, record_switch, action_features_reply}
use daim.Con.Dispatch.{action, goes_on}
use daim.Con.Ports.{ports_in, datapath_at, show_ports-rewound, send_config_lem}
use daim.Con.Spared.{Spared, whole_table, add_ports-either}
use daim.Con.Invariant.{IsSound-ports, Sound, Kept, Partly, and_then-Partly, if-Partly, Safe-Partly}
use daim.Con.Safety.{goes_on-Safe}

module _ (e : Env) (spared : Spared e) where
  action_features_reply-Partly :
      (of_buffer : ℕ) (s : State)
      → Sound s
      → Partly (λ _ s'. Kept s s') (action_features_reply e of_buffer s)
  unfolding action_features_reply record_switch list_rewind
  action_features_reply-Partly of_buffer s sound = elim (Bool-cases s.links_mutex) [
    | inl held ↦ simp held tt
    | inr free ↦
        let n = ports_in of_buffer s in
        elim (Bool-cases (n == 0)) [
          | inl z ↦ simp (free, z) (sound, refl)
          | inr nz ↦
              let s2 : State = record s {
                switch_id = datapath_at s of_buffer;
                links_mutex = true;
                transaction_id = xid_of s of_buffer;
                no_of_ports = n;
                threads = s.threads + 1;
              } in
              elim (add_ports-either e spared (rounds n) of_buffer 0 s2 sound.ports_whole) [
                | inl bad ↦ simp (free, nz, bad) tt
                | inr (xs, a, ran) ↦
                    let s3 : State = record s2 {
                      ports = whole_table xs s.ports.cursor;
                      allocations = a;
                      links_mutex = false;
                    } in
                    simp
                      (
                        free,
                        nz,
                        ran,
                        show_ports-rewound e s3 refl sound.ports_start,
                        send_config_lem,
                      )
                      (IsSound-ports xs sound, refl)
              ]
        ]
  ]

  features_reply_action :
      (kind of_buffer : ℕ) (s : State)
      → (kind == ofpt_features_reply) ≡ true
      → action e kind of_buffer s ≡ action_features_reply e of_buffer s
  unfolding action
  features_reply_action kind of_buffer s reply =
      let hello : (kind == ofpt_hello) ≡ false = ground arith in simp (hello, reply)

  pub goes_on-Partly :
      (kind of_buffer : ℕ) (s : State)
      → Sound s
      → Partly (λ _ s'. Kept s s') (goes_on e kind of_buffer s)
  unfolding goes_on
  goes_on-Partly kind of_buffer s sound = elim (Bool-cases (kind == ofpt_features_reply)) [
    | inr other ↦
        Safe-Partly (λ (_ : Bool) s'. Kept s s') (goes_on e kind of_buffer s)
          (goes_on-Safe e spared ⊥ kind of_buffer s sound (inl other))
    | inl reply ↦ rw (features_reply_action kind of_buffer s reply) (
        and_then-Partly (λ (_ : Ret) s'. Kept s s') (λ (_ : Bool) s'. Kept s s') _
          (λ r s' h. if-Partly (λ (_ : Bool) s''. Kept s s'') (is_neg1 e r) _ _ s' h h) _
          (action_features_reply-Partly of_buffer s sound))
  ]
