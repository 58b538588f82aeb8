-- ===== src/Con/Cbench.antt =====
-- `send_information` for cbench: the loop over the messages of one buffer.
use daim.Prelude.{
  ℕ, zero, suc, ◌+◌, ◌-◌, ◌<◌, ◌≡◌, refl, ap, sym, ◌∙◌, inl, inr, Bool, true, false, List, [], ◌∷◌,
  arith, ◌==◌, if◌then◌else◌, Bool-cases,
}
use mathlib.Core.Path.{subst}
use native.Mathlib.Nat.{add-zero}
use daim.Wire.Buffer.{Buffer}
use daim.Wire.Ofp.{ofp_version, ofpt_hello, ofpt_features_reply, ofpt_packet_in, ofpt_echo_request}
use daim.Con.State.{Env, State, Ret, ret_0, ret_neg1, ok, out_of_fuel, M, pure, ◌>>=◌}
use daim.Con.Reply.{check_openflow}
use daim.Con.Dispatch.{action, goes_on, type_at, length_at, cbench_loop}
use daim.Con.Messages.{size_at, messages, messages-next, Along, Proper, AllProper}
use daim.Con.Spared.{Spared}
use daim.Con.Invariant.{Sound, Kept, Safe, and_then-Safe, Safe-weaken, if-Safe, and_then-cong}
use daim.Con.Safety.{goes_on-Safe}

-- Types for which the controller has no action.
abbrev pub Unhandled : ℕ → Type 0
Unhandled kind =
    ((kind == ofpt_hello) ≡ false)
    × ((kind == ofpt_features_reply) ≡ false)
    × ((kind == ofpt_packet_in) ≡ false)
    × ((kind == ofpt_echo_request) ≡ false)

pub Kept-trans : (a b c : State) → Kept a b → Kept b c → Kept a c
Kept-trans a b c h k = (k.0, k.1 ∙ h.1)

sub-zero : (n : ℕ) → n - 0 ≡ n
sub-zero n = omega arith

module _ (e : Env) where
  pub action-Unhandled :
      (kind of_buffer : ℕ) (s : State) → Unhandled kind → action e kind of_buffer s ≡ ok ret_0 s
  unfolding action
  action-Unhandled kind of_buffer s (a, b, c, d) = simp (a, b, c, d)

  -- A message of the right version, of a type without an action and with the length 0, with bytes
  -- left to handle, keeps the loop from ending: it uses up any amount of fuel.
  pub cbench_loop-endless :
      (fuel counter pos : ℕ) (s : State)
      → 0 < counter
      → check_openflow s pos ≡ true
      → Unhandled (type_at s pos)
      → length_at s pos ≡ 0
      → cbench_loop e fuel counter pos s ≡ out_of_fuel
  unfolding cbench_loop goes_on
  cbench_loop-endless zero counter pos s some_left version kind none_long = refl
  cbench_loop-endless (suc fuel) counter pos s some_left version kind none_long =
      let nz : (counter == 0) ≡ false = ground arith in
      simp (nz, version, action-Unhandled (type_at s pos) pos s kind, none_long, sub-zero, add-zero)
        (cbench_loop-endless fuel counter pos s some_left version kind none_long)

Proper-next :
    (fuel counter pos : ℕ) (b : Buffer)
    → (counter == 0) ≡ false
    → (b pos == ofp_version) ≡ true
    → AllProper (suc fuel) counter pos b
    → Proper b pos × AllProper fuel (counter - size_at b pos) (pos + size_at b pos) b
Proper-next fuel counter pos b some_left version proper =
    subst (Along (Proper b)) (messages-next fuel counter pos b some_left version) proper

pub shorter :
    (fuel counter size : ℕ)
    → (counter == 0) ≡ false
    → counter < suc fuel
    → 0 < size
    → counter - size < fuel
shorter fuel counter size some_left less long = ground arith

module _ (e : Env) (spared : Spared e) where
  pub cbench_loop-Safe :
      (fuel counter pos : ℕ) (s : State)
      → Sound s
      → counter < fuel
      → AllProper fuel counter pos s.read_buffer
      → Safe ⊥ (λ _ s'. Kept s s') (cbench_loop e fuel counter pos s)
  unfolding cbench_loop check_openflow
  cbench_loop-Safe zero counter pos s sound less proper = let no : ⊥ = omega arith in elim no [ ]
  cbench_loop-Safe (suc fuel) counter pos s sound less proper = elim (Bool-cases (counter == 0)) [
    | inl z ↦ simp z (sound, refl)
    | inr nz ↦ elim (Bool-cases (s.read_buffer pos == ofp_version)) [
      | inr bad ↦ simp (nz, bad) (sound, refl)
      | inl good ↦
          let ((long, inside), rest) = Proper-next fuel counter pos s.read_buffer nz good proper in
          let less' : counter - length_at s pos < fuel = shorter fuel counter _ nz less long in
          simp (nz, good)
            (and_then-Safe ⊥ (λ (_ : Bool) s'. Kept s s') (λ (_ : Ret) s'. Kept s s') _
              (λ on s' kept.
                if-Safe ⊥ (λ (_ : Ret) s''. Kept s s'') on _ _ s'
                  (Safe-weaken ⊥ (λ _ s''. Kept s' s'') (λ _ s''. Kept s s'')
                    (λ _ s'' next. Kept-trans s s' s'' kept next) _
                    (cbench_loop-Safe fuel (counter - length_at s pos) (pos + length_at s pos) s'
                      kept.0 less' (subst (AllProper fuel _ _) (sym kept.1) rest)))
                  kept)
              _ (goes_on-Safe e spared ⊥ (type_at s pos) pos s sound inside))
    ]
  ]

-- The messages at these offsets, one after the other, up to one whose action fails.
unfoldable pub handle_all : Env → List ℕ → M Ret
handle_all e [] = pure ret_0
handle_all e (o ∷ os) =
    λ s. (do on ← goes_on e (type_at s o) o; if on then handle_all e os else pure ret_neg1) s

if-cong :
    (b : Bool) (m m' n : M Ret) (s : State)
    → m s ≡ m' s
    → (if b then m else n) s ≡ (if b then m' else n) s
if-cong true m m' n s h = h
if-cong false m m' n s h = refl

module _ (e : Env) (spared : Spared e) where
  -- Where no object gets its first allocation without the second, the tables are sound, there is more
  -- fuel than bytes left, and, among the messages that the loop comes to, none states the length 0 and
  -- every features reply has its fixed part and lies in the buffer: the loop does the same as handling
  -- these messages one after the other. They lie behind one another by their lengths, up to the first of
  -- another version.
  pub cbench_loop-handle_all :
      (fuel counter pos : ℕ) (s : State)
      → Sound s
      → counter < fuel
      → AllProper fuel counter pos s.read_buffer
      → cbench_loop e fuel counter pos s ≡ handle_all e (messages fuel counter pos s.read_buffer) s
  unfolding cbench_loop messages handle_all check_openflow
  cbench_loop-handle_all zero counter pos s sound less proper =
      let no : ⊥ = omega arith in elim no [ ]
  cbench_loop-handle_all (suc fuel) counter pos s sound less proper =
      elim (Bool-cases (counter == 0)) [
        | inl z ↦ simp z
        | inr nz ↦ elim (Bool-cases (s.read_buffer pos == ofp_version)) [
          | inr bad ↦ simp (nz, bad)
          | inl good ↦
              let ((long, inside), rest) =
                Proper-next fuel counter pos s.read_buffer nz good proper in
              let less' : counter - length_at s pos < fuel = shorter fuel counter _ nz less long in
              simp (nz, good)
                (and_then-cong ⊥ (λ (_ : Bool) s'. Kept s s') _ _
                  (λ on s' kept. if-cong on _ _ _ s' (
                    cbench_loop-handle_all fuel (counter - length_at s pos) (pos + length_at s pos)
                      s' kept.0 less' (subst (AllProper fuel _ _) (sym kept.1) rest)
                    ∙ ap
                        (λ (b : Buffer).
                          handle_all e
                            (messages fuel (counter - length_at s pos) (pos + length_at s pos) b)
                            s')
                        kept.1))
                  _ (goes_on-Safe e spared ⊥ (type_at s pos) pos s sound inside))
        ]
      ]
