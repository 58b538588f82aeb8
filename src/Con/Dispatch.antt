-- ===== src/Con/Dispatch.antt =====
-- `send_information`, `read_from_switch` and `communicate_with_switch`.
use daim.Prelude.{
  ℕ, zero, suc, ◌+◌, ◌-◌, Bool, true, false, not, ◌∷◌, Option, none, some, ◌==◌, ltb, if◌then◌else◌,
}
use daim.Wire.Order.{ntohs}
use daim.Wire.Buffer.{Buffer, get16}
use daim.Wire.Ofp.{ofpt_hello, ofpt_features_reply, ofpt_packet_in, ofpt_echo_request}
use daim.Table.Ops.{free_list}
use daim.Con.State.{
  Env, State, Count, error, bytes_done, Ret, ret_0, ret_neg1, is_neg1, ok, exited, out_of_fuel, M,
  pure, ◌>>=◌, ◌>>◌,
}
use daim.Con.Reply.{check_openflow, action_hello, action_echo}
use daim.Con.Features.{action_features_reply}
use daim.Con.Branches.{action_packout}

-- `pheader->type` and `ntohs (pheader->length)`.
abbrev pub type_at : State → (of_buffer : ℕ) → ℕ
type_at s of_buffer = s.read_buffer (of_buffer + 1)

abbrev pub length_at : State → (of_buffer : ℕ) → ℕ
length_at s of_buffer = ntohs (get16 s.read_buffer (of_buffer + 2))

-- The number of rounds that `for (counter = read_buffer_len; counter > 0; ...)` may start with.
abbrev pub bytes_read : State → ℕ
bytes_read s = elim (s.read_buffer_len) [ error ↦ 0 | bytes_done n ↦ n ]

-- The buffer after `memset` and `recv`.
unfoldable pub filled : Count → Buffer → Buffer
filled error content i = 0
filled (bytes_done n) content i = if ltb i n then content i else 0

-- `if (sw_sockfd > 0) { close (sw_sockfd); sw_sockfd = -1; }`
unfoldable pub close_switch : Option ℕ → State → State
close_switch none s = s
close_switch (some zero) s = s
close_switch (some (suc n)) s = record s { sw_sockfd = none; closed = suc n ∷ s.closed }

unfoldable pub free_tables : State → State
free_tables s = record s {
  hosts = free_list s.hosts;
  ports = free_list s.ports;
  links = free_list s.links;
  sw_replys = free_list s.sw_replys;
}

module _ (e : Env) where
  -- The action for the type of the message at `of_buffer`, if there is one.
  unfoldable pub action : (kind of_buffer : ℕ) → M Ret
  action kind of_buffer =
      if kind == ofpt_hello
      then (λ s. let (r, s') = action_hello e of_buffer s in ok r s')
      else if kind == ofpt_features_reply
      then action_features_reply e of_buffer
      else if kind == ofpt_packet_in
      then action_packout e of_buffer
      else if kind == ofpt_echo_request
      then (λ s. let (r, s') = action_echo e of_buffer s in ok r s')
      else pure ret_0

  -- `if (action (...) == -1) return -1;`: `true` stands for going on.
  unfoldable pub goes_on : (kind of_buffer : ℕ) → M Bool
  goes_on kind of_buffer = do
    r ← action kind of_buffer
    if is_neg1 e r then pure false else pure true

  -- The loop of `send_information` for cbench, over every message in the buffer. `counter` is the
  -- number of bytes left; where the source goes below 0 this stops at 0, and both end the loop.
  unfoldable pub cbench_loop : (fuel counter read_bufferp : ℕ) → M Ret
  cbench_loop zero counter read_bufferp = λ s. out_of_fuel
  cbench_loop (suc fuel) counter read_bufferp = λ s.
      if counter == 0
      then ok ret_0 s
      else if check_openflow s read_bufferp
      then (do
        on ← goes_on (type_at s read_bufferp) read_bufferp
        if on
            then cbench_loop fuel (counter - length_at s read_bufferp)
                (read_bufferp + length_at s read_bufferp)
            else pure ret_neg1)
          s
      else ok ret_0 s

  -- Outside cbench only the first message of the buffer is looked at. A message of another version
  -- is answered if it is a hello.
  unfoldable pub first_message : M Ret
  first_message s =
      if check_openflow s 0
      then ((do on ← goes_on (type_at s 0) 0; if on then pure ret_0 else pure ret_neg1) s)
      else if type_at s 0 == ofpt_hello
      then ((do on ← goes_on ofpt_hello 0; if on then pure ret_0 else pure ret_neg1) s)
      else ok ret_0 s

  unfoldable pub send_information : (fuel : ℕ) → M Ret
  send_information fuel s =
      if s.cbench then cbench_loop fuel (bytes_read s) 0 s else first_message s

  -- `false` stands for -1.
  unfoldable pub read_from_switch : M Bool
  read_from_switch s =
      let r = e.recv s.recvs in
      let s1 = record s {
        recvs = s.recvs + 1;
        read_buffer = filled r.count r.content;
        read_buffer_len = r.count;
      } in
      ok (elim (r.count) [ error ↦ false | bytes_done n ↦ not (n == 0) ]) s1

  -- `false` stands for -1. The socket options that it sets are only reported where they fail.
  unfoldable pub create_switch_socket : M Bool
  create_switch_socket s =
      let fd = e.accept s.accepts in
      ok (elim fd [ none ↦ false | some n ↦ true ])
        (record s { accepts = s.accepts + 1; sw_sockfd = fd })

  -- What `communicate_with_switch` does when it cannot read: it waits for a new connection.
  unfoldable pub reconnect : M (Unit {0})
  reconnect s =
      (do connected ← create_switch_socket; if connected then pure tt else λ s'. exited s')
        (free_tables (close_switch s.sw_sockfd s))

  unfoldable pub communicate_with_switch : (fuel : ℕ) → M Ret
  communicate_with_switch fuel = do
    read ← read_from_switch
    if read then pure tt else reconnect
    r ← send_information fuel
    if is_neg1 e r then pure ret_neg1 else pure ret_0
