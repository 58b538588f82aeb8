-- ===== src/Con/Reply.antt =====
-- `check_openflow`, `action_hello` and `action_echo`. `of_buffer` is an offset into `read_buffer`.
use daim.Prelude.{ℕ, ◌+◌, ◌%◌, ◌^◌, Bool, ◌==◌, if◌then◌else◌}
use daim.Wire.Order.{htonl, ntohl}
use daim.Wire.Buffer.{zeros, get32}
use daim.Wire.Ofp.{ofp_version}
use daim.Wire.Build.{create_of_hello, create_of_features_request, create_of_echo_reply}
use daim.Con.State.{
  Env, State, Count, error, bytes_done, Ret, ret_0, ret_neg1, no_return, send_write_buffer,
}

-- `true` stands for 0, `false` for -1.
unfoldable pub check_openflow : State → (of_buffer : ℕ) → Bool
check_openflow s of_buffer = s.read_buffer of_buffer == ofp_version

-- `ntohl (pheader->xid)`.
unfoldable pub xid_of : State → (of_buffer : ℕ) → ℕ
xid_of s of_buffer = ntohl (get32 s.read_buffer (of_buffer + 4))

-- The tests of the result of `send` in `action_hello` and `action_echo`: 0 fails, a positive number
-- goes on, and -1 runs off the end of the function.
unfoldable pub after_send : Count → State → (State → Ret × State) → Ret × State
after_send error s next = (no_return, s)
after_send (bytes_done n) s next = if n == 0 then (ret_neg1, s) else next s

module _ (e : Env) where
  unfoldable pub send_hello : ℕ → State → State
  send_hello xid s =
      send_write_buffer e
        (record s { transaction_id = xid; write_buffer = create_of_hello zeros (htonl xid) })

  unfoldable pub send_features_request : State → State
  send_features_request s =
      let xid = (s.transaction_id + 1) % 2 ^ 32 in
      send_write_buffer e (record s {
        transaction_id = xid;
        write_buffer = create_of_features_request s.write_buffer (htonl xid);
      })

  unfoldable pub action_hello : (of_buffer : ℕ) → State → Ret × State
  action_hello of_buffer s =
      let s1 = send_hello (xid_of s of_buffer) s in
      after_send s1.write_buffer_len s1 λ s2.
        let s3 = send_features_request s2 in after_send s3.write_buffer_len s3 λ s4. (ret_0, s4)

  unfoldable pub send_echo_reply : ℕ → State → State
  send_echo_reply xid s =
      send_write_buffer e
        (record s { transaction_id = xid; write_buffer = create_of_echo_reply zeros (htonl xid) })

  unfoldable pub action_echo : (of_buffer : ℕ) → State → Ret × State
  action_echo of_buffer s =
      let s1 = send_echo_reply (xid_of s of_buffer) s in
      after_send s1.write_buffer_len s1 λ s2. (ret_0, s2)
