-- ===== src/Ani21/Dispatch.antt =====
-- `send_information` and `communicate_with_switch` of ANIv21/_con.cpp.
use daim.Prelude.{ℕ, ◌==◌, if◌then◌else◌}
use daim.Wire.Ofp.{ofpt_hello, ofpt_features_reply, ofpt_packet_in, ofpt_echo_request}
use daim.Table.Ops.{free_list}
use daim.Con.State.{Env, Ret, ret_0, ret_neg1, is_neg1, ok, exited, M, pure, ◌>>=◌, ◌>>◌}
use daim.Con.Reply.{check_openflow, action_hello, action_echo}
use daim.Con.Dispatch.{type_at, bytes_read, close_switch, create_switch_socket, read_from_switch}
use daim.Ani1.Main.{message_loop}
use daim.Ani21.Actions.{action_features_reply, action_packout}

module _ (e : Env) where
  unfoldable pub message_action : (kind of_buffer : ℕ) → M Ret
  message_action kind of_buffer =
      if kind == ofpt_hello
      then (λ s. let (r, s') = action_hello e of_buffer s in ok r s')
      else if kind == ofpt_features_reply
      then action_features_reply e of_buffer
      else if kind == ofpt_packet_in
      then action_packout e of_buffer
      else if kind == ofpt_echo_request
      then (λ s. let (r, s') = action_echo e of_buffer s in ok r s')
      else pure ret_0

  unfoldable pub act_on : (kind of_buffer : ℕ) → M Ret
  act_on kind of_buffer = do
    r ← message_action kind of_buffer
    if is_neg1 e r then pure ret_neg1 else pure ret_0

  -- Outside cbench: a message of another version is answered if it is a hello.
  unfoldable pub only_message : M Ret
  only_message s =
      if check_openflow s 0
      then act_on (type_at s 0) 0 s
      else if type_at s 0 == ofpt_hello
      then act_on ofpt_hello 0 s
      else ok ret_0 s

  unfoldable pub send_information : (fuel : ℕ) → M Ret
  send_information fuel s =
      if s.cbench then message_loop e message_action fuel (bytes_read s) 0 s else only_message s

  -- Only the tables of the hosts and of the ports are freed.
  unfoldable pub reconnect : M (Unit {0})
  reconnect s =
      let s1 = close_switch s.sw_sockfd s in
      (do connected ← create_switch_socket e; if connected then pure tt else λ s'. exited s')
        (record s1 { hosts = free_list s1.hosts; ports = free_list s1.ports })

  unfoldable pub communicate_with_switch : (fuel : ℕ) → M Ret
  communicate_with_switch fuel = do
    read ← read_from_switch e
    if read then pure tt else reconnect
    r ← send_information fuel
    if is_neg1 e r then pure ret_neg1 else pure ret_0
