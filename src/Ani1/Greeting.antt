-- ===== src/Ani1/Greeting.antt =====
-- What `action_hello` and `action_echo` of ANIv1/main.cpp send back.
use daim.Prelude.{
  ℕ, ◌+◌, ◌%◌, ◌^◌, ◌≤◌, ◌<◌, ◌≡◌, refl, ap, ◌∙◌, true, List, ◌∷◌, ◌++◌, arith, lt→ltb,
}
use daim.Wire.Order.{htonl, ntohs, be32, network_bytes}
use daim.Wire.Buffer.{Buffer, put8, put32, get16, bytes}
use daim.Wire.Ofp.{ofpt_features_request, ofpt_echo_reply}
use daim.Wire.Bytes.{bytes-cong, bytes-append}
use daim.Con.State.{Env, State, Message, Ret, ret_0, Ends}
use daim.Con.Reply.{xid_of}
use daim.Con.Dispatch.{length_at}
use daim.Con.Sending.{delivered}
use daim.Con.Greeting.{tested, carries_on, after_send-returned, after_send-part, carries_on-same}
use daim.Ani1.Handlers.{
  message_copy, copy_fits, hello_back, request_features, action_hello, echo_back, action_echo,
}
use daim.Ani1.Sending.{send_bytes_lem}

message_copy-in :
    (s : State) (of_buffer i : ℕ)
    → i < length_at s of_buffer
    → message_copy s of_buffer i ≡ s.read_buffer (of_buffer + i)
unfolding message_copy
message_copy-in s of_buffer i less = rw (lt→ltb i (length_at s of_buffer) less) refl

message_copy_start :
    (s : State) (of_buffer : ℕ)
    → 0 < length_at s of_buffer
    → message_copy s of_buffer 0 ≡ s.read_buffer of_buffer
message_copy_start s of_buffer some_bytes =
    let place : of_buffer + 0 ≡ of_buffer = omega arith in
    message_copy-in s of_buffer 0 some_bytes ∙ ap s.read_buffer place

-- The bytes of a message behind its first `m`, under a buffer that is its copy from there on.
tail-same :
    (s : State) (of_buffer m k : ℕ) (b : Buffer)
    → length_at s of_buffer ≡ m + k
    → ((i : ℕ) → m ≤ i → b i ≡ message_copy s of_buffer i)
    → bytes b m k ≡ bytes s.read_buffer (of_buffer + m) k
tail-same s of_buffer m k b long same = bytes-cong b s.read_buffer m (of_buffer + m) k λ i less.
    same (m + i) (omega arith)
    ∙ message_copy-in s of_buffer (m + i) (rw long (omega arith))
    ∙ ap s.read_buffer (omega arith)

copy_bytes :
    (s : State) (of_buffer n : ℕ)
    → length_at s of_buffer ≡ n
    → bytes (message_copy s of_buffer) 0 n ≡ bytes s.read_buffer of_buffer n
copy_bytes s of_buffer n long =
    bytes-cong (message_copy s of_buffer) s.read_buffer 0 of_buffer n λ i less.
      ap (message_copy s of_buffer) (omega arith) ∙ message_copy-in s of_buffer i (rw long less)

-- A message of `8 + k` bytes as a features request with this transaction id.
abbrev pub as_request : State → (of_buffer k xid : ℕ) → Message
as_request s of_buffer k xid =
    s.read_buffer of_buffer
      ∷ 5
      ∷ s.read_buffer (of_buffer + 2)
      ∷ s.read_buffer (of_buffer + 3)
      ∷ be32 xid
    ++ bytes s.read_buffer (of_buffer + 8) k

-- A message of `4 + k` bytes as an echo reply.
abbrev pub as_reply : State → (of_buffer k : ℕ) → Message
as_reply s of_buffer k =
    s.read_buffer of_buffer
    ∷ 3
    ∷ s.read_buffer (of_buffer + 2)
    ∷ s.read_buffer (of_buffer + 3)
    ∷ bytes s.read_buffer (of_buffer + 4) k

module _ (s : State) (of_buffer k : ℕ) where
  echo_bytes :
      length_at s of_buffer ≡ 4 + k
      → bytes (put8 (message_copy s of_buffer) 1 3) 0 (4 + k) ≡ as_reply s of_buffer k
  unfolding bytes put8
  echo_bytes long =
      let b : Buffer = put8 (message_copy s of_buffer) 1 3 in
      let rest : bytes b 4 k ≡ bytes s.read_buffer (of_buffer + 4) k =
        tail-same s of_buffer 4 k b long (λ i past. ground arith) in
      bytes-append b 0 4 k (4 + k) refl
      ∙ simp (
        rest,
        message_copy_start s of_buffer (rw long (omega arith)),
        message_copy-in s of_buffer 2 (rw long (omega arith)),
        message_copy-in s of_buffer 3 (rw long (omega arith)),
      )

  hello_bytes :
      (xid : ℕ)
      → length_at s of_buffer ≡ 8 + k
      → bytes (put32 (put8 (message_copy s of_buffer) 1 5) 4 (htonl xid)) 0 (8 + k)
        ≡ as_request s of_buffer k xid
  unfolding bytes put8 put32
  hello_bytes xid long =
      let b : Buffer = put32 (put8 (message_copy s of_buffer) 1 5) 4 (htonl xid) in
      let rest : bytes b 8 k ≡ bytes s.read_buffer (of_buffer + 8) k =
        tail-same s of_buffer 8 k b long (λ i past. ground arith) in
      bytes-append b 0 8 k (8 + k) refl
      ∙ simp (
        rest,
        message_copy_start s of_buffer (rw long (omega arith)),
        message_copy-in s of_buffer 2 (rw long (omega arith)),
        message_copy-in s of_buffer 3 (rw long (omega arith)),
        network_bytes,
      )

-- What the function returns and has sent, where its `send`s are given these traces.
pub record Returned (e : Env) (first second : List Message) (r : Ret) (s' : State) : Type 0 where
  pub returned : r ≡ tested (e.send first) (tested (e.send second) ret_0)
  pub messages : s'.sent ≡ carries_on (e.send first) first second

-- The length of the copy is that of the message.
copy_length :
    (s : State) (of_buffer : ℕ)
    → 4 ≤ length_at s of_buffer
    → get16 (message_copy s of_buffer) 2 ≡ get16 s.read_buffer (of_buffer + 2)
unfolding get16
copy_length s of_buffer long =
    let place : of_buffer + 2 + 1 ≡ of_buffer + 3 = omega arith in
    rw
      (
        message_copy-in s of_buffer 2 (omega (arith, long)),
        message_copy-in s of_buffer 3 (omega (arith, long)),
        place,
      )
      refl

module _ (e : Env) where
  hello_back_lem :
      (of_buffer n : ℕ) (s : State)
      → length_at s of_buffer ≡ n
      → hello_back e of_buffer s
        ≡ delivered e (bytes s.read_buffer of_buffer n) (record s {
          transaction_id = xid_of s of_buffer;
          write_buffer = message_copy s of_buffer;
        })
  unfolding hello_back
  hello_back_lem of_buffer n s long =
      send_bytes_lem e (length_at s of_buffer) _ _
        (ap (bytes (message_copy s of_buffer) 0) long ∙ copy_bytes s of_buffer n long)

  request_features_lem :
      (of_buffer k : ℕ) (s s1 : State)
      → length_at s of_buffer ≡ 8 + k
      → s1.write_buffer ≡ message_copy s of_buffer
      → let xid = (s1.transaction_id + 1) % 2 ^ 32 in
        request_features e s1
        ≡ delivered e (as_request s of_buffer k xid) (record s1 {
          transaction_id = xid;
          write_buffer = put32 (put8 s1.write_buffer 1 ofpt_features_request) 4 (htonl xid);
        })
  unfolding request_features put8 put32 get16
  request_features_lem of_buffer k s s1 long same =
      let xid : ℕ = (s1.transaction_id + 1) % 2 ^ 32 in
      let b : Buffer = put32 (put8 s1.write_buffer 1 ofpt_features_request) 4 (htonl xid) in
      let size : ntohs (get16 b 2) ≡ 8 + k =
        ap (λ (w : Buffer). ntohs (get16 w 2)) same
        ∙ ap ntohs (copy_length s of_buffer (rw long (omega arith)))
        ∙ long in
      let written : bytes b 0 (ntohs (get16 b 2)) ≡ as_request s of_buffer k xid =
        ap (bytes b 0) size
        ∙ ap (λ (w : Buffer). bytes (put32 (put8 w 1 5) 4 (htonl xid)) 0 (8 + k)) same
        ∙ hello_bytes s of_buffer k xid long in
      send_bytes_lem e (ntohs (get16 b 2)) (record s1 { transaction_id = xid; write_buffer = b })
        (as_request s of_buffer k xid) written

  echo_back_lem :
      (of_buffer k : ℕ) (s : State)
      → length_at s of_buffer ≡ 4 + k
      → echo_back e of_buffer s
        ≡ delivered e
            (as_reply s of_buffer k)
            (record s { write_buffer = put8 (message_copy s of_buffer) 1 ofpt_echo_reply })
  unfolding echo_back put8 get16
  echo_back_lem of_buffer k s long =
      let b : Buffer = put8 (message_copy s of_buffer) 1 ofpt_echo_reply in
      let size : ntohs (get16 b 2) ≡ 4 + k =
        ap ntohs (copy_length s of_buffer (rw long (omega arith))) ∙ long in
      let written : bytes b 0 (ntohs (get16 b 2)) ≡ as_reply s of_buffer k =
        ap (bytes b 0) size ∙ echo_bytes s of_buffer k long in
      send_bytes_lem e (ntohs (get16 b 2)) (record s { write_buffer = b }) (as_reply s of_buffer k)
        written

  -- A hello of `8 + k` bytes that fits into the buffers is sent back byte for byte; then the same
  -- bytes go out again as a features request, with the type 5 and the next transaction id, and with
  -- all that stood behind the header. The second `send` is not made, and the result is -1, where the
  -- first one sends nothing; where it fails the function ends with no return.
  pub action_hello-Returned :
      (of_buffer k : ℕ) (s : State)
      → length_at s of_buffer ≡ 8 + k
      → copy_fits s of_buffer ≡ true
      → let hello = bytes s.read_buffer of_buffer (8 + k) ∷ s.sent in
        let xid = (xid_of s of_buffer + 1) % 2 ^ 32 in
        Ends (Returned e hello (as_request s of_buffer k xid ∷ hello)) (action_hello e of_buffer s)
  unfolding action_hello
  action_hello-Returned of_buffer k s long fits =
      let s1 : State = delivered e (bytes s.read_buffer of_buffer (8 + k)) (record s {
        transaction_id = xid_of s of_buffer;
        write_buffer = message_copy s of_buffer;
      }) in
      let next = request_features_lem of_buffer k s s1 long refl in
      simp (fits, hello_back_lem of_buffer (8 + k) s long)
        (record {
          returned = simp (after_send-returned, next);
          messages = simp (after_send-part (λ t. t.sent), next, carries_on-same);
        })

  -- An echo request of `4 + k` bytes that fits into the buffers is sent back byte for byte, its
  -- transaction id and its data included, as an echo reply: only the type is another. The result of
  -- `send` decides what is returned.
  pub action_echo-Returned :
      (of_buffer k : ℕ) (s : State)
      → length_at s of_buffer ≡ 4 + k
      → copy_fits s of_buffer ≡ true
      → Ends
          (λ r s'.
            let trace = as_reply s of_buffer k ∷ s.sent in
            (r ≡ tested (e.send trace) ret_0) × (s'.sent ≡ trace))
          (action_echo e of_buffer s)
  unfolding action_echo
  action_echo-Returned of_buffer k s long fits =
      simp (fits, echo_back_lem of_buffer k s long)
        (simp after_send-returned, simp (after_send-part (λ t. t.sent), carries_on-same))
