-- ===== src/Examples/Ani21.antt =====
-- Version 2.1 of the controller on concrete messages.
use daim.Prelude.{ℕ, ◌≡◌, refl, inl, sym, false, some, List, [], ◌∷◌, ◌++◌, arith}
use mathlib.Core.Path.{subst}
use daim.Wire.Order.{htons, ntohs}
use daim.Wire.Buffer.{get16, zeros}
use daim.Con.State.{State, initial, bytes_done, ok, Ends}
use daim.Con.PacketIn.{PacketIn}
use daim.Con.Ports.{datapath_at, ports_of, config_trace}
use daim.Con.Features.{rounds}
use daim.Con.Reconnect.{filled-Lost}
use daim.Con.Invariant.{Sound, Kept}
use daim.Ani21.Text.{text_message, text_at}
use daim.Ani21.Actions.{sending, share_text, heard_text, text_branch, action_features_reply}
use daim.Ani21.Dispatch.{send_information, message_action, reconnect}
use daim.Ani21.Threads.{Step, shares, reconnects, stay, go, system, first_system, Steps-Kept}
use daim.Ani21.Stale.{GoOn, Steps-GoOn}
use daim.Con.Dispatch.{filled, create_switch_socket, close_switch}
use daim.Table.Ops.{free_list}
use daim.Ani21.Reading.{reported, text_branch-text_message}
use daim.Ani21.Loop.{Terminated, send_information-returns}
use daim.Ani21.Greets.{Greets, action_features_reply-Greets}
use daim.Examples.Inputs.{
  calm, scarce, scarce-Spared, all_granted, with_buffer, one_port, frame_of, frame_of_same,
}

-- The text of the datapath 5, which went out of the port 2 of its switch, in a packet-in.
abbrev told : State
told = frame_of (text_message 5 (htons 2))

abbrev told_packet : PacketIn
told_packet = record {
  of_buffer = 0;
  xid = 0;
  buffer_id = 0;
  in_port = 3;
  dst = record { a0 = 1; a1 = 0x23; a2 = 0x20; a3 = 0; a4 = 0; a5 = 1 };
  src = record { a0 = 0; a1 = 0; a2 = 0; a3 = 0; a4 = 0; a5 = 1 };
  eth_type = 0x88cc;
}

text_branch-text_message_example :
    (text_branch told_packet told ≡ ok tt told)
    × (text : List ℕ) × (heard_text told told_packet ≡ some text)
    × (reported text ≡ 5)
text_branch-text_message_example =
    text_branch-text_message 5 (htons 2) told told_packet (omega arith)
      (λ i less. frame_of_same (text_message 5 (htons 2)) i 1024 less)

initial-Sound : Sound (initial false)
initial-Sound = record {
  hosts_whole = refl;
  ports_whole = refl;
  ports_start = refl;
  links_whole = refl;
  replys_whole = refl;
  links_start = refl;
  replys_start = refl;
  distinct = tt;
}

zeros-Terminated : Terminated (initial false).read_buffer
unfolding text_at
zeros-Terminated o = ([], refl)

send_information-returns_example :
    Ends (λ _ s'. Kept (initial false) s') (send_information scarce 5 (initial false))
send_information-returns_example =
    send_information-returns scarce scarce-Spared 5 (initial false) initial-Sound zeros-Terminated
      (inl refl) (λ on. absurd cc)

action_features_reply-Greets_example :
    let s = with_buffer one_port in
    Ends
      (λ _ s'.
        (s'.ports.items ≡ [] ++ ports_of s.read_buffer (datapath_at s 0) 0 1 0)
        × (s'.sent ≡ config_trace s 0)
        × (s'.threads ≡ 1)
        × Greets calm 0 1 s s')
      (action_features_reply calm 0 s)
unfolding get16 ntohs
action_features_reply-Greets_example =
    action_features_reply-Greets calm 0 1 (with_buffer one_port) all_granted refl (omega arith)
      (omega arith) (omega arith) refl refl

zeros-filled : (k : ℕ) → Terminated (filled (scarce.recv k).count (scarce.recv k).content)
zeros-filled k = subst Terminated (sym (filled-Lost (bytes_done 0) zeros refl)) zeros-Terminated

Steps-Kept_example :
    Ends
      (λ _ s'. Kept (first_system false 5).main s')
      (message_action scarce 10 0 (first_system false 5).main)
Steps-Kept_example =
    Steps-Kept scarce scarce-Spared zeros-filled false 5 (first_system false 5)
      (stay (first_system false 5)) 10 0 (omega arith) (inl refl)

-- A thread of the datapath 5 and its one port, before and after a reconnection to another switch.
abbrev old_switch : State
old_switch = record (initial false) { sw_sockfd = some 5; accepts = 1 }

abbrev new_switch : State
new_switch = record (initial false) { sw_sockfd = some 7; accepts = 2; closed = 5 ∷ [] }

a_round :
    Step calm (system old_switch (sending 2 1 5 ∷ [])) (system old_switch (sending 1 1 5 ∷ []))
unfolding share_text rounds
a_round = shares old_switch old_switch [] [] (sending 2 1 5) (sending 1 1 5) refl

a_reconnection :
    Step calm (system old_switch (sending 1 1 5 ∷ [])) (system new_switch (sending 1 1 5 ∷ []))
unfolding reconnect create_switch_socket close_switch free_list
a_reconnection = reconnects old_switch new_switch (sending 1 1 5 ∷ []) refl

Steps-GoOn_example : GoOn (sending 2 1 5 ∷ []) (sending 1 1 5 ∷ [])
Steps-GoOn_example =
    Steps-GoOn calm (system old_switch (sending 2 1 5 ∷ []))
      (system new_switch (sending 1 1 5 ∷ [])) (go _ _ _ (go _ _ _ (stay _) a_round) a_reconnection)
