-- ===== src/Ani1/Serving.antt =====
-- Whole calls of `communicate_with_switch` of ANIv1/main.cpp, and its loop in `main`.
use daim.Prelude.{
  ℕ, zero, suc, ◌+◌, ◌<◌, ◌≡◌, refl, ap, ◌∙◌, inl, inr, ◌⊎◌, true, false, List, [], ◌∷◌, some,
  Option, arith, leb, suc_not_zero,
}
use daim.Wire.Ofp.{ofpt_hello, ofpt_echo_request}
use daim.Table.Ops.{rewound, list_rewind}
use daim.Table.Loops.{before, find_object-never}
use daim.Con.State.{Env, State, error, bytes_done, ret_0, ok, undefined, out_of_fuel}
use daim.Con.Reply.{check_openflow}
use daim.Con.PacketIn.{show_hosts}
use daim.Con.Dispatch.{type_at, length_at, bytes_read, filled}
use daim.Con.Start.{close_one}
use daim.Ani1.Handlers.{copy_fits, action_hello, action_echo}
use daim.Con.Reconnect.{free_list-whole}
use daim.Con.Exit.{Exits}
use daim.Ani1.Main.{
  read_ret, read_from_switch, run_action, message_loop, send_information, communicate_with_switch,
  close_sockets, free_hosts_and_ports, give_up, main_loop,
}

-- The state after the `recv` of a call.
abbrev pub after_recv : Env → State → State
after_recv e s = record s {
  recvs = s.recvs + 1;
  read_buffer = filled (e.recv s.recvs).count (e.recv s.recvs).content;
  read_buffer_len = (e.recv s.recvs).count;
}

too_long : (s : State) (o : ℕ) → 10240 < length_at s o → copy_fits s o ≡ false
unfolding copy_fits
too_long s o long = let no : leb (length_at s o) 10240 ≡ false = ground arith in simp no

module _ (e : Env) where
  run_action-overflow :
      (kind : ℕ) (s : State)
      → (kind ≡ ofpt_hello) ⊎ (kind ≡ ofpt_echo_request)
      → 10240 < length_at s 0
      → run_action e kind 0 s ≡ undefined
  unfolding run_action action_hello action_echo
  run_action-overflow kind s (inl hello) long = simp (hello, too_long s 0 long)
  run_action-overflow kind s (inr echo) long = simp (echo, too_long s 0 long)

  read_from_switch-bytes :
      (n : ℕ) (s : State)
      → (e.recv s.recvs).count ≡ bytes_done (suc n)
      → read_from_switch e s ≡ ok ret_0 (after_recv e s)
  unfolding read_from_switch
  read_from_switch-bytes n s read =
      let ret : read_ret (e.recv s.recvs).count ≡ ret_0 = rw read (rw (suc_not_zero n) refl) in
      rw ret refl

  send_information-overflow :
      (fuel n : ℕ) (s : State)
      → bytes_read s ≡ suc n
      → check_openflow s 0 ≡ true
      → (type_at s 0 ≡ ofpt_hello) ⊎ (type_at s 0 ≡ ofpt_echo_request)
      → 10240 < length_at s 0
      → send_information e (suc fuel) s ≡ undefined
  unfolding send_information message_loop
  send_information-overflow fuel n s left version kind long =
      simp (left, suc_not_zero n, version, run_action-overflow (type_at s 0) s kind long)

  -- A first message of OpenFlow 1.0 in what is read that is a hello or an echo request, and states more
  -- than 10240 bytes, makes `communicate_with_switch` write behind the end of `write_buffer`.
  pub communicate_with_switch-overflow :
      (fuel n : ℕ) (s : State)
      → (e.recv s.recvs).count ≡ bytes_done (suc n)
      → check_openflow (after_recv e s) 0 ≡ true
      → (type_at (after_recv e s) 0 ≡ ofpt_hello) ⊎ (type_at (after_recv e s) 0 ≡ ofpt_echo_request)
      → 10240 < length_at (after_recv e s) 0
      → communicate_with_switch e (suc fuel) s ≡ undefined
  unfolding communicate_with_switch
  communicate_with_switch-overflow fuel n s read version kind long =
      let runs : read_from_switch e s ≡ ok ret_0 (after_recv e s) =
        read_from_switch-bytes n s read in
      let left : bytes_read (after_recv e s) ≡ suc n = rw read refl in
      let over : send_information e (suc fuel) (after_recv e s) ≡ undefined =
        send_information-overflow fuel n (after_recv e s) left version kind long in
      simp (runs, over)

  -- A `recv` that fails makes the function that reads end with no return. Where what it leaves behind
  -- is not -1, the call does nothing and returns 0.
  communicate_with_switch-error :
      (fuel : ℕ) (s : State)
      → (e.recv s.recvs).count ≡ error
      → e.leftover ≡ false
      → communicate_with_switch e (suc fuel) s ≡ ok ret_0 (after_recv e s)
  unfolding communicate_with_switch read_from_switch send_information message_loop
  communicate_with_switch-error fuel s fails left = simp (fails, left)

  -- Where `recv` fails from now on, and the value that the reading function leaves behind is not -1,
  -- the loop of `main` never ends: after any number of calls it makes the next.
  pub main_loop-endless :
      (app_sockfd : Option ℕ) (calls fuel : ℕ) (s : State)
      → ((k : ℕ) → (e.recv (s.recvs + k)).count ≡ error)
      → e.leftover ≡ false
      → main_loop e app_sockfd calls (suc fuel) s ≡ out_of_fuel
  unfolding main_loop
  main_loop-endless app_sockfd zero fuel s fails left = refl
  main_loop-endless app_sockfd (suc calls) fuel s fails left =
      let place : s.recvs + 0 ≡ s.recvs = omega arith in
      let now : (e.recv s.recvs).count ≡ error =
        ap (λ (k : ℕ). (e.recv k).count) (omega arith) ∙ fails 0 in
      simp (communicate_with_switch-error fuel s now left) (
        main_loop-endless app_sockfd calls fuel (after_recv e s)
          (λ k. ap (λ (i : ℕ). (e.recv i).count) (omega arith) ∙ fails (k + 1)) left)

  -- What `main` leaves behind: no object in the two tables, and both sockets closed, that of the switch
  -- last; nothing has been sent.
  pub record GivenUp (app sw : ℕ) (s s' : State) : Type 0 where
    pub hosts_empty : s'.hosts.items ≡ []
    pub ports_empty : s'.ports.items ≡ []
    pub closed : s'.closed ≡ sw ∷ app ∷ s.closed
    pub messages : s'.sent ≡ s.sent

  above_zero : (n : ℕ) (fds : List ℕ) → 0 < n → close_one (some n) fds ≡ n ∷ fds
  unfolding close_one
  above_zero zero fds some_fd = let no : ⊥ = omega arith in elim no [ ]
  above_zero (suc n) fds some_fd = refl

  -- When the switch closes its connection, `recv` gives 0 bytes: the loop of `main` exits, with both
  -- tables empty, the sockets of the switch and of the listener closed, whose descriptors are above 0,
  -- and nothing sent. The two tables have to be whole, and the cursor of the hosts not left behind by a
  -- `free_list`.
  pub main_loop-closed :
      (app sw calls fuel k : ℕ) (s : State)
      → (e.recv s.recvs).count ≡ bytes_done 0
      → s.sw_sockfd ≡ some sw
      → 0 < sw
      → 0 < app
      → s.hosts.broken ≡ false
      → s.ports.broken ≡ false
      → s.hosts.cursor ≡ before k
      → Exits (GivenUp app sw s) (main_loop e (some app) (suc calls) fuel s)
  unfolding main_loop communicate_with_switch read_from_switch give_up show_hosts list_rewind
      free_hosts_and_ports close_sockets
  main_loop-closed app sw calls fuel k s closes fd sw_open app_open whole p_whole at =
      simp (closes, find_object-never k s.hosts whole at)
        (record {
          hosts_empty = (free_list-whole (record s.hosts { cursor = rewound }) whole).0;
          ports_empty = (free_list-whole s.ports p_whole).0;
          closed =
              ap (λ (o : Option ℕ). close_one o (close_one (some app) s.closed)) fd
              ∙ above_zero sw (close_one (some app) s.closed) sw_open
              ∙ ap (λ (fds : List ℕ). sw ∷ fds) (above_zero app s.closed app_open);
          messages = refl;
        })
