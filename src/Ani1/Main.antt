-- ===== src/Ani1/Main.antt =====
-- `main` of ANIv1/main.cpp, its sockets, and what it does with the bytes that it reads.
use daim.Prelude.{ℕ, zero, suc, ◌+◌, ◌-◌, Bool, true, false, Option, List, [], ◌==◌, if◌then◌else◌}
use daim.Wire.Ofp.{ofpt_hello, ofpt_features_reply, ofpt_packet_in, ofpt_echo_request}
use daim.Table.Ops.{free_list}
use daim.Con.State.{
  Env, State, Count, error, bytes_done, Ret, ret_0, ret_neg1, no_return, is_neg1, Run, ok, exited,
  out_of_fuel, M, pure, initial, ◌>>=◌, ◌>>◌,
}
use daim.Con.Reply.{check_openflow}
use daim.Con.PacketIn.{show_hosts}
use daim.Con.Dispatch.{type_at, length_at, bytes_read, filled, create_switch_socket}
use daim.Con.Start.{Listening, listens, close_one}
use daim.Ani1.Handlers.{action_hello, action_echo, action_features_reply, action_packout}

-- `read_from_switch`: a negative result of `recv` runs off the end of the function.
abbrev pub read_ret : Count → Ret
read_ret error = no_return
read_ret (bytes_done n) = if n == 0 then ret_neg1 else ret_0

unfoldable pub create_app_socket : Listening → Bool × Option ℕ
create_app_socket c = (listens c c.socket, c.socket)

-- `close_sockets`, with the descriptors closed before, the last first.
unfoldable pub close_sockets : (app_sockfd : Option ℕ) → State → State
close_sockets app_sockfd s = record s {
  closed = close_one s.sw_sockfd (close_one app_sockfd s.closed);
}

unfoldable pub free_hosts_and_ports : State → State
free_hosts_and_ports s = record s { hosts = free_list s.hosts; ports = free_list s.ports }

-- `exit_handler`, on SIGINT or SIGTERM. Unlike `main` it closes the sockets first.
unfoldable pub exit_handler : (app_sockfd : Option ℕ) → M (Unit {0})
exit_handler app_sockfd s =
    (show_hosts >> (λ s'. exited (free_hosts_and_ports s'))) (close_sockets app_sockfd s)

module _ (e : Env) where
  unfoldable pub run_action : (kind of_buffer : ℕ) → M Ret
  run_action kind of_buffer =
      if kind == ofpt_hello
      then action_hello e of_buffer
      else if kind == ofpt_features_reply
      then action_features_reply e of_buffer
      else if kind == ofpt_packet_in
      then action_packout e of_buffer
      else if kind == ofpt_echo_request
      then action_echo e of_buffer
      else pure ret_0

  -- The loop of `send_information` over the messages, with `act` for the actions and `counter` bytes
  -- left, 0 for a negative number.
  unfoldable pub message_loop :
      (act : (kind of_buffer : ℕ) → M Ret) → (fuel counter read_bufferp : ℕ) → M Ret
  message_loop act zero counter read_bufferp = λ s. out_of_fuel
  message_loop act (suc fuel) counter read_bufferp = λ s.
      if counter == 0
      then ok ret_0 s
      else if check_openflow s read_bufferp
      then (let size = length_at s read_bufferp in
          (do
            r ← act (type_at s read_bufferp) read_bufferp
            if is_neg1 e r
                then pure ret_neg1
                else message_loop act fuel (counter - size) (read_bufferp + size))
            s)
      else ok ret_0 s

  unfoldable pub send_information : (fuel : ℕ) → M Ret
  send_information fuel s = message_loop run_action fuel (bytes_read s) 0 s

  unfoldable pub read_from_switch : M Ret
  read_from_switch s =
      let r = e.recv s.recvs in
      ok (read_ret r.count) (record s {
        recvs = s.recvs + 1;
        read_buffer = filled r.count r.content;
        read_buffer_len = r.count;
      })

  unfoldable pub communicate_with_switch : (fuel : ℕ) → M Ret
  communicate_with_switch fuel = do
    r ← read_from_switch
    if is_neg1 e r
        then pure ret_neg1
        else do r' ← send_information fuel; if is_neg1 e r' then pure ret_neg1 else pure ret_0

  -- What `main` does when a call of `communicate_with_switch` fails, before it exits with 3.
  unfoldable pub give_up : (app_sockfd : Option ℕ) → M (Unit {0})
  give_up app_sockfd = do
    show_hosts
    λ s. exited (close_sockets app_sockfd (free_hosts_and_ports s))

  -- The loop of `main`, for at most `calls` calls of `communicate_with_switch`, each with this fuel.
  unfoldable pub main_loop : (app_sockfd : Option ℕ) → (calls fuel : ℕ) → M (Unit {0})
  main_loop app_sockfd zero fuel = λ s. out_of_fuel
  main_loop app_sockfd (suc calls) fuel = do
    r ← communicate_with_switch fuel
    if is_neg1 e r then give_up app_sockfd else main_loop app_sockfd calls fuel

-- How `main` goes on: an exit with this status and these descriptors closed, or its loop.
pub data Begun : Type 0 where
  exit_with : (status : ℕ) (closed : List ℕ) → Begun
  looping : Run (Unit {0}) → Begun

unfoldable pub with_switch : Env → (app_sockfd : Option ℕ) → (calls fuel : ℕ) → Run Bool → Begun
with_switch e app_sockfd calls fuel (ok true s) = looping (main_loop e app_sockfd calls fuel s)
with_switch e app_sockfd calls fuel (ok false s) = exit_with 2 (close_sockets app_sockfd s).closed
with_switch e app_sockfd calls fuel r = exit_with 2 []

unfoldable pub with_app_socket : Env → (calls fuel : ℕ) → Bool × Option ℕ → Begun
with_app_socket e calls fuel (true, app_sockfd) =
    with_switch e app_sockfd calls fuel (create_switch_socket e (initial false))
with_app_socket e calls fuel (false, app_sockfd) = exit_with 1 (close_one app_sockfd [])

unfoldable pub main : Listening → Env → (calls fuel : ℕ) → Begun
main c e calls fuel = with_app_socket e calls fuel (create_app_socket c)
