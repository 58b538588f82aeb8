-- ===== src/Relay/Main.antt =====
-- `main` of stage0.cpp: the sockets, the two processes, and how they end.
use daim.Prelude.{ℕ, ◌≡◌, refl, Bool, true, false, Option, none, some, [], ◌∷◌}
use daim.Relay.Sockets.{
  Setup, Sockets, no_sockets, accept_switch, create_app_socket, create_controller_socket,
  is_negative, close, close_socket, close_sockets,
}
use daim.Relay.Copy.{Ends, Direction, idle, Status, going, can_not_read, can_not_write, copy_loop}

-- What `fork` returns: -1, 0 in the child, or the number of the child in the parent.
pub data Fork : Type 0 where
  fork_error in_child : Fork
  in_parent : ℕ → Fork

-- Where a process stands: it copies, or it has exited with a failure, after `kill` for the child in the
-- parent.
pub data Process : Type 0 where
  copying : Sockets → Direction → Process
  exit_failure : (killed : Option ℕ) → Sockets → Direction → Process

unfoldable pub leave : (killed : Option ℕ) → Sockets → Status × Direction → Process
leave killed s (going, d) = copying s d
leave killed s (can_not_read, d) = exit_failure killed (close_sockets s) d
leave killed s (can_not_write, d) = exit_failure killed (close_sockets s) d

-- After `k` rounds. The child reads from the controller, the parent from the switch.
unfoldable pub forked : Fork → (from_controller from_switch : Ends) → (k : ℕ) → Sockets → Process
forked fork_error child parent k s = exit_failure none (close_sockets s) idle
forked in_child child parent k s = leave none s (copy_loop child k (going, idle))
forked (in_parent pid) child parent k s = leave (some pid) s (copy_loop parent k (going, idle))

-- The exits of `main` before `fork`.
unfoldable pub with_controller :
    Fork → (from_controller from_switch : Ends) → (k : ℕ) → Bool × Sockets → Process
with_controller f child parent k (true, s) = forked f child parent k s
with_controller f child parent k (false, s) = exit_failure none (close_sockets s) idle

unfoldable pub with_app :
    Setup → Fork → (from_controller from_switch : Ends) → (k : ℕ) → Bool × Sockets → Process
with_app c f child parent k (true, s) =
    with_controller f child parent k (create_controller_socket c s)
with_app c f child parent k (false, s) = exit_failure none (close_sockets s) idle

unfoldable pub relay_main : Setup → Fork → (from_controller from_switch : Ends) → (k : ℕ) → Process
relay_main c f child parent k = with_app c f child parent k (create_app_socket c no_sockets)

-- The sockets of a process.
abbrev pub sockets_of : Process → Sockets
sockets_of (copying s d) = s
sockets_of (exit_failure killed s d) = s

close_socket-same : (fd : Option ℕ) (s : Sockets) → close_socket fd s.open_fds ≡ s.open_fds
unfolding close_socket is_negative close
close_socket-same none s = refl
close_socket-same (some n) s = refl

pub close_sockets-same : (s : Sockets) → close_sockets s ≡ s
unfolding close_sockets
close_sockets-same s = simp (
  close_socket-same s.app_sockfd s,
  close_socket-same s.sw_sockfd s,
  close_socket-same s.con_sockfd s,
)

-- Every call that sets up the sockets works, with these descriptors.
pub record Ready (c : Setup) (app sw con : ℕ) : Type 0 where
  pub app_works : c.app_socket ≡ some app
  pub bind_works : c.bind ≡ true
  pub listen_works : c.listen ≡ true
  pub accept_works : c.accept ≡ some sw
  pub con_works : c.con_socket ≡ some con
  pub gethostbyname_works : c.gethostbyname ≡ true
  pub connect_works : c.connect ≡ true

-- The sockets when everything is set up.
abbrev pub all_sockets : (app sw con : ℕ) → Sockets
all_sockets app sw con = record {
  app_sockfd = some app;
  sw_sockfd = some sw;
  con_sockfd = some con;
  open_fds = con ∷ sw ∷ app ∷ [];
}

module _ (c : Setup) (app sw con : ℕ) (r : Ready c app sw con) where
  abbrev app_sockets : Sockets
  app_sockets = record {
    app_sockfd = some app;
    sw_sockfd = some sw;
    con_sockfd = none;
    open_fds = sw ∷ app ∷ [];
  }

  create_app_socket-Ready : create_app_socket c no_sockets ≡ (true, app_sockets)
  unfolding create_app_socket accept_switch
  create_app_socket-Ready =
      rw (r.app_works)
        (simp (r.bind_works, r.listen_works) (rw (r.accept_works) (rw (r.accept_works) refl)))

  create_controller_socket-Ready :
      create_controller_socket c app_sockets ≡ (true, all_sockets app sw con)
  unfolding create_controller_socket
  create_controller_socket-Ready = rw (r.con_works) (simp (r.gethostbyname_works, r.connect_works))

  relay_main-Ready :
      (f : Fork) (child parent : Ends) (k : ℕ)
      → relay_main c f child parent k ≡ forked f child parent k (all_sockets app sw con)
  unfolding relay_main with_app with_controller
  relay_main-Ready f child parent k =
      rw (create_app_socket-Ready, create_controller_socket-Ready) refl

leave-same :
    (killed : Option ℕ) (s : Sockets) (sd : Status × Direction) → sockets_of (leave killed s sd) ≡ s
unfolding leave
leave-same killed s (going, d) = refl
leave-same killed s (can_not_read, d) = close_sockets-same s
leave-same killed s (can_not_write, d) = close_sockets-same s

-- Once the sockets are set up, and whatever `fork` returns, no descriptor is ever closed: after any
-- number of rounds, and after every exit that calls `close_sockets`, the three sockets are still open, with
-- the same descriptors.
pub relay_main-sockets :
    (c : Setup) (f : Fork) (child parent : Ends) (k app sw con : ℕ)
    → Ready c app sw con
    → sockets_of (relay_main c f child parent k) ≡ all_sockets app sw con
unfolding forked
relay_main-sockets c fork_error child parent k app sw con r =
    rw (relay_main-Ready c app sw con r fork_error child parent k)
      (close_sockets-same (all_sockets app sw con))
relay_main-sockets c in_child child parent k app sw con r =
    rw (relay_main-Ready c app sw con r in_child child parent k)
      (leave-same none (all_sockets app sw con) (copy_loop child k (going, idle)))
relay_main-sockets c (in_parent pid) child parent k app sw con r =
    rw (relay_main-Ready c app sw con r (in_parent pid) child parent k)
      (leave-same (some pid) (all_sockets app sw con) (copy_loop parent k (going, idle)))
