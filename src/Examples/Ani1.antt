-- ===== src/Examples/Ani1.antt =====
-- Version 1 of the controller on concrete messages.
use daim.Prelude.{◌≡◌, refl, inl, true, some, [], ◌∷◌, arith}
use daim.Wire.Order.{ntohs, ntohl}
use daim.Wire.Buffer.{zeros, bytes, get16, get32}
use daim.Con.State.{Env, State, initial, bytes_done, undefined, Ends}
use daim.Con.Reply.{xid_of, check_openflow}
use daim.Con.PacketIn.{packet_in}
use daim.Con.Branches
use daim.Con.Branches.{last_test}
use daim.Con.Forwarding.{Handled}
use daim.Con.Packet.{hosts_after}
use daim.Con.Dispatch.{filled}
use daim.Con.Invariant.{Kept}
use daim.Ani1.Handlers.{copy_fits, action_hello, action_packout}
use daim.Con.Exit.{Exits}
use daim.Ani1.Main.{send_information, communicate_with_switch, main_loop}
use daim.Ani1.Greeting.{Returned, action_hello-Returned}
use daim.Ani1.Packet.{decision, action_packout-decision}
use daim.Ani1.Agrees.{BothEnd, Alike, action_packout-Alike}
use daim.Con.Messages.{messages, Along}
use daim.Ani1.Loop.{Copied, send_information-Kept}
use daim.Ani1.Serving.{GivenUp, communicate_with_switch-overflow, main_loop-closed}
use daim.Examples.Inputs.{
  calm, scarce, scarce-Spared, all_granted, buffer_of, with_buffer, arp_request, ip6_frame,
  two_messages,
}
use daim.Examples.Serving.{busy, first-Sound}

-- A hello with the transaction id 9.
abbrev hello : State
hello = with_buffer (1 ∷ 0 ∷ 0 ∷ 8 ∷ 0 ∷ 0 ∷ 0 ∷ 9 ∷ [])

action_hello-Returned_example :
    Ends
      (Returned calm
        ((1 ∷ 0 ∷ 0 ∷ 8 ∷ 0 ∷ 0 ∷ 0 ∷ 9 ∷ []) ∷ [])
        ((1 ∷ 5 ∷ 0 ∷ 8 ∷ 0 ∷ 0 ∷ 0 ∷ 10 ∷ []) ∷ (1 ∷ 0 ∷ 0 ∷ 8 ∷ 0 ∷ 0 ∷ 0 ∷ 9 ∷ []) ∷ []))
      (action_hello calm 0 hello)
unfolding copy_fits get16 ntohs xid_of get32 ntohl bytes
action_hello-Returned_example = action_hello-Returned calm 0 0 hello refl refl

action_packout-decision_example :
    let s = with_buffer arp_request in
    Ends
      (λ r s'.
        (r ≡ last_test s')
        × Handled calm
            (packet_in s 0)
            (decision s (packet_in s 0))
            (hosts_after s (packet_in s 0))
            s
            s')
      (action_packout calm 0 s)
action_packout-decision_example =
    action_packout-decision calm 0 (with_buffer arp_request) all_granted refl

-- An IPv6 frame while the program runs for cbench.
abbrev ip6_cbench : State
ip6_cbench = record (with_buffer ip6_frame) { cbench = true }

action_packout-Alike_example :
    BothEnd Alike (action_packout calm 0 ip6_cbench) (Branches.action_packout calm 0 ip6_cbench)
unfolding packet_in get16 ntohs
action_packout-Alike_example =
    action_packout-Alike calm 0 ip6_cbench all_granted refl refl refl (λ i. cc)

two_messages-Copied : Along (Copied two_messages) (messages 17 16 0 two_messages)
unfolding messages filled get16 ntohs
two_messages-Copied = (
  ((omega arith, inl refl), omega arith, omega arith),
  (((omega arith, inl refl), omega arith, omega arith), tt),
)

send_information-Kept_example : Ends (λ _ s'. Kept busy s') (send_information scarce 17 busy)
send_information-Kept_example =
    send_information-Kept scarce scarce-Spared 17 busy first-Sound (omega arith) two_messages-Copied

-- A switch whose hello states 10241 bytes.
abbrev long_hello : Env
long_hello = record calm {
  recv = λ k. record { count = bytes_done 4; content = buffer_of (1 ∷ 0 ∷ 40 ∷ 1 ∷ []) };
}

communicate_with_switch-overflow_example :
    communicate_with_switch long_hello 20 (initial true) ≡ undefined
unfolding check_openflow filled get16 ntohs
communicate_with_switch-overflow_example =
    communicate_with_switch-overflow long_hello 19 3 (initial true) refl refl (inl refl)
      (omega arith)

-- A switch that has closed its connection.
abbrev shut : Env
shut = record calm { recv = λ k. record { count = bytes_done 0; content = zeros } }

main_loop-closed_example :
    let s : State = record (initial true) { sw_sockfd = some 5 } in
    Exits (GivenUp shut 3 5 s) (main_loop shut (some 3) 1 20 s)
main_loop-closed_example =
    main_loop-closed shut 3 5 0 20 0 (record (initial true) { sw_sockfd = some 5 }) refl refl
      (omega arith) (omega arith) refl refl refl
