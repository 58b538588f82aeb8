-- ===== src/Relay/Signals.antt =====
-- The signal handlers of stage0.cpp.
use daim.Prelude.{ℕ, ◌≡◌, refl, Option, none, some}
use daim.Relay.Sockets.{Sockets, close_sockets}
use daim.Relay.Main.{close_sockets-same}

pub data Signal : Type 0 where
  sigint sigterm : Signal

-- The two processes after `fork`; `cproc` of the parent is the number of the child.
pub data Role : Type 0 where
  child : Role
  parent : (cproc : ℕ) → Role

-- What a signal does: the process goes on, exits with success after a `kill` for `killed`, or is
-- terminated by the signal, which has no handler.
pub data Reaction : Type 0 where
  untouched : Sockets → Reaction
  exit_success : (killed : Option ℕ) → Sockets → Reaction
  terminated : Sockets → Reaction

unfoldable pub exit_handler : (cproc : ℕ) → Sockets → Reaction
exit_handler cproc s = exit_success (some cproc) (close_sockets s)

unfoldable pub child_exit_handler : Sockets → Reaction
child_exit_handler s = exit_success none (close_sockets s)

-- The handlers that `main` has set: the child ignores SIGINT, and the parent has none for SIGTERM.
unfoldable pub on_signal : Role → Signal → Sockets → Reaction
unfolding exit_handler child_exit_handler
on_signal child sigint s = untouched s
on_signal child sigterm s = child_exit_handler s
on_signal (parent cproc) sigint s = exit_handler cproc s
on_signal (parent cproc) sigterm s = terminated s

-- The signals that a process sends to the child as it ends.
unfoldable pub sent_to_child : Reaction → Option Signal
sent_to_child (untouched s) = none
sent_to_child (exit_success (some cproc) s) = some sigterm
sent_to_child (exit_success none s) = none
sent_to_child (terminated s) = none

-- The child after the signal has come to both processes, as Ctrl + C does, and after the one that the
-- parent then sends to it.
abbrev then_signal : Option Signal → Reaction → Reaction
then_signal (some sig) (untouched s) = on_signal child sig s
then_signal _ r = r

abbrev child_after : (cproc : ℕ) → Signal → (of_parent of_child : Sockets) → Reaction
child_after cproc sig of_parent of_child =
    then_signal (sent_to_child (on_signal (parent cproc) sig of_parent))
      (on_signal child sig of_child)

-- Ctrl + C ends both processes with success, the child by the SIGTERM of the parent, and neither has
-- closed a socket. A SIGTERM to both ends the parent without its handler.
pub both_after :
    (cproc : ℕ) (s t : Sockets)
    → (on_signal (parent cproc) sigint s ≡ exit_success (some cproc) s)
      × (child_after cproc sigint s t ≡ exit_success none t)
      × (on_signal (parent cproc) sigterm s ≡ terminated s)
      × (child_after cproc sigterm s t ≡ exit_success none t)
unfolding on_signal sent_to_child
both_after cproc s t =
    (simp (close_sockets-same), simp (close_sockets-same), refl, simp (close_sockets-same))
