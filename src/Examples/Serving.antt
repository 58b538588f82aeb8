-- ===== src/Examples/Serving.antt =====
-- The loops of the controller on whole buffers, and its connections.
use daim.Prelude.{◌≡◌, refl, inl, Bool, true, false, some, [], ◌∷◌, arith}
use daim.Wire.Order.{ntohs}
use daim.Wire.Buffer.{get16}
use daim.Con.State.{State, initial, bytes_done, ret_0, out_of_fuel, Ends}
use daim.Con.Reply.{check_openflow}
use daim.Con.Dispatch.{cbench_loop, send_information, communicate_with_switch}
use daim.Con.Invariant.{Sound, Kept, Safe}
use daim.Con.Cbench.{handle_all, cbench_loop-handle_all, cbench_loop-endless}
use daim.Con.Messages.{messages}
use daim.Con.Dispatch.{filled}
use daim.Con.Serve.{send_information-ends, communicate_with_switch-Lost}
use daim.Con.Start.{opt_port, opt_cbench, Listening, ani_main}
use daim.Con.Starting.{Outcome, ani_main-Outcome}
use daim.Examples.Inputs.{
  calm, scarce, scarce-Spared, buffer_of, two_messages, two_messages-AllProper,
}

-- The state of the controller when its switch has connected.
abbrev first : Bool → State
first cbench = record (initial cbench) { sw_sockfd = some 5; accepts = 1 }

-- The same, with 16 bytes read.
abbrev pub busy : State
busy = record (first true) { read_buffer = two_messages; read_buffer_len = bytes_done 16 }

-- A message of an unknown type with the length 0.
abbrev stuck : State
stuck = record (first true) { read_buffer = buffer_of (1 ∷ 1 ∷ []); read_buffer_len = bytes_done 2 }

pub first-Sound : Sound (first true)
first-Sound = record {
  hosts_whole = refl;
  ports_whole = refl;
  ports_start = refl;
  links_whole = refl;
  replys_whole = refl;
  links_start = refl;
  replys_start = refl;
  distinct = tt;
}

cbench_loop-handle_all_example :
    cbench_loop scarce 17 16 0 busy ≡ handle_all scarce (0 ∷ 8 ∷ []) busy
unfolding messages filled get16 ntohs
cbench_loop-handle_all_example =
    cbench_loop-handle_all scarce scarce-Spared 17 16 0 busy first-Sound (omega arith)
      two_messages-AllProper

send_information-ends_example : Safe ⊥ (λ _ s'. Kept busy s') (send_information scarce 17 busy)
unfolding filled
send_information-ends_example =
    send_information-ends scarce scarce-Spared 17 busy first-Sound (inl refl)
      (λ on. (omega arith, two_messages-AllProper))

cbench_loop-endless_example : cbench_loop calm 1000 2 0 stuck ≡ out_of_fuel
unfolding check_openflow get16 ntohs
cbench_loop-endless_example =
    cbench_loop-endless calm 1000 2 0 stuck (omega arith) refl (refl, refl, refl, refl) refl

communicate_with_switch-Lost_example :
    Ends
      (λ r s'.
        (r ≡ ret_0)
        × (s'.sent
            ≡ (1 ∷ 5 ∷ 0 ∷ 8 ∷ 0 ∷ 0 ∷ 0 ∷ 1 ∷ []) ∷ (1 ∷ 0 ∷ 0 ∷ 8 ∷ 0 ∷ 0 ∷ 0 ∷ 0 ∷ []) ∷ []))
      (communicate_with_switch calm 100 (first false))
communicate_with_switch-Lost_example =
    communicate_with_switch-Lost calm 100 7 (first false) refl refl refl

-- A socket that listens.
abbrev listening : Listening
listening = record { socket = some 3; bind = true; listen = true }

ani_main-Outcome_example :
    Outcome true listening calm
      (opt_port 2000 ∷ opt_cbench ∷ [])
      (ani_main true listening calm (opt_port 2000 ∷ opt_cbench ∷ []))
ani_main-Outcome_example = ani_main-Outcome listening calm (opt_port 2000 ∷ opt_cbench ∷ []) true
