-- ===== src/Con/Greeting.antt =====
-- What `action_hello` and `action_echo` send, and what they return.
use daim.Prelude.{
  ℕ, ◌+◌, ◌%◌, ◌^◌, ◌≡◌, List, ◌∷◌, refl, inl, inr, arith, ◌==◌, if◌then◌else◌, Bool-cases,
}
use daim.Wire.Format.{header_format}
use daim.Con.State.{Env, State, Message, Count, error, bytes_done, Ret, ret_0, ret_neg1, no_return}
use daim.Con.Reply.{xid_of, after_send, action_hello, action_echo}
use daim.Con.Sending.{send_hello_lem, send_features_request_lem, send_echo_reply_lem}

-- What the function returns after a `send` with this result, if what comes next returns `next`.
abbrev pub tested : Count → Ret → Ret
tested error next = no_return
tested (bytes_done n) next = if n == 0 then ret_neg1 else next

-- What has been sent, with one message or with the next one too.
abbrev pub carries_on {ℓ} : {A : Type ℓ} → Count → A → A → A
carries_on error stop next = stop
carries_on (bytes_done n) stop next = if n == 0 then stop else next

abbrev pub hello_trace : List Message → ℕ → List Message
hello_trace sent xid = header_format 0 8 xid ∷ sent

abbrev pub features_trace : List Message → ℕ → List Message
features_trace sent xid = header_format 5 8 ((xid + 1) % 2 ^ 32) ∷ hello_trace sent xid

-- The outcome of `action_hello` where the two `send`s have the results `c1` and `c2`.
pub record Greeted (s : State) (xid : ℕ) (c1 c2 : Count) (r : Ret × State) : Type 0 where
  pub returned : r.0 ≡ tested c1 (tested c2 ret_0)
  pub messages : r.1.sent ≡ carries_on c1 (hello_trace s.sent xid) (features_trace s.sent xid)
  pub next_xid : r.1.transaction_id ≡ carries_on c1 xid ((xid + 1) % 2 ^ 32)

pub after_send-returned :
    (c : Count) (s : State) (next : State → Ret × State)
    → (after_send c s next).0 ≡ tested c (next s).0
unfolding after_send
after_send-returned error s next = refl
after_send-returned (bytes_done n) s next = ground arith

-- A part of the state that the continuation changes in one way.
pub after_send-part {ℓ} :
    {X : Type ℓ} (f : State → X) (c : Count) (s : State) (next : State → Ret × State)
    → f (after_send c s next).1 ≡ carries_on c (f s) (f (next s).1)
unfolding after_send
after_send-part f error s next = refl
after_send-part f (bytes_done n) s next = elim (Bool-cases (n == 0)) [
  | inl z ↦ simp z
  | inr z ↦ simp z
]

pub carries_on-same {ℓ} : {X : Type ℓ} (c : Count) (x : X) → carries_on c x x ≡ x
carries_on-same error x = refl
carries_on-same (bytes_done n) x = elim (Bool-cases (n == 0)) [ inl z ↦ simp z | inr z ↦ simp z ]

module _ (e : Env) where
  -- A hello is answered by a hello with the same transaction id and then by a features request with
  -- the next one. Where the first `send` does not give a positive number the second is not made. A
  -- `send` of 0 bytes makes the function return -1, and a `send` that fails lets it end with no
  -- return.
  pub action_hello-Greeted :
      (of_buffer : ℕ) (s : State)
      → Greeted s
          (xid_of s of_buffer)
          (e.send (hello_trace s.sent (xid_of s of_buffer)))
          (e.send (features_trace s.sent (xid_of s of_buffer)))
          (action_hello e of_buffer s)
  unfolding action_hello
  action_hello-Greeted of_buffer s =
      simp (send_hello_lem, send_features_request_lem)
        (record {
          returned = simp (after_send-returned);
          messages = simp (after_send-part (λ t. t.sent), carries_on-same);
          next_xid = simp (after_send-part (λ t. t.transaction_id), carries_on-same);
        })

  -- An echo request is answered by an echo reply of 8 bytes with the same transaction id, whatever
  -- the request carried behind its header; the result of `send` decides what is returned.
  pub action_echo_lem :
      (of_buffer : ℕ) (s : State)
      → let r = action_echo e of_buffer s in
        let trace = header_format 3 8 (xid_of s of_buffer) ∷ s.sent in
        (r.0 ≡ tested (e.send trace) ret_0)
        × (r.1.sent ≡ trace)
        × (r.1.transaction_id ≡ xid_of s of_buffer)
  unfolding action_echo
  action_echo_lem of_buffer s = simp send_echo_reply_lem (
    simp after_send-returned,
    simp (after_send-part (λ t. t.sent), carries_on-same),
    simp (after_send-part (λ t. t.transaction_id), carries_on-same),
  )
