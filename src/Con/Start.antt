-- ===== src/Con/Start.antt =====
-- `main` of ANIv41/ani.cpp up to its loop, and `create_ani_socket` and `close_sockets` of _con.cpp.
use daim.Prelude.{
  ℕ, zero, suc, ◌%◌, ◌^◌, Bool, true, false, Option, none, some, List, [], ◌∷◌, if◌then◌else◌,
}
use daim.Con.State.{Env, State, Run, ok, initial}
use daim.Con.Dispatch.{create_switch_socket}

-- What one call of `getopt_long` gives; `opt_port` with the number of its argument.
pub data Opt : Type 0 where
  opt_port : (number : ℕ) → Opt
  opt_quiet opt_cbench opt_help opt_version opt_other : Opt

-- The globals that the options set.
pub record Options : Type 0 where
  pub ani_port : ℕ
  pub verbose : Bool
  pub cbench : Bool

abbrev pub default_options : Options
default_options = record { ani_port = 6633; verbose = true; cbench = false }

-- The loop over the options; `none` where it exits after the help or the version.
unfoldable pub read_options : List Opt → Options → Option Options
read_options [] o = some o
read_options (opt_port number ∷ opts) o =
    read_options opts (record o { ani_port = number % 2 ^ 16 })
read_options (opt_quiet ∷ opts) o = read_options opts (record o { verbose = false })
read_options (opt_cbench ∷ opts) o = read_options opts (record o { cbench = true })
read_options (opt_help ∷ opts) o = none
read_options (opt_version ∷ opts) o = none
read_options (opt_other ∷ opts) o = read_options opts o

-- What the calls of `create_ani_socket` return; the result of `setsockopt` is only reported.
pub record Listening : Type 0 where
  pub socket : Option ℕ
  pub bind : Bool
  pub listen : Bool

-- `false` stands for -1.
unfoldable pub listens : Listening → Option ℕ → Bool
listens c none = false
listens c (some fd) = if c.bind then c.listen else false

unfoldable pub create_ani_socket : Listening → Bool × Option ℕ
create_ani_socket c = (listens c c.socket, c.socket)

-- `if (fd > 0) close (fd);`, with the descriptors that have been closed.
unfoldable pub close_one : Option ℕ → List ℕ → List ℕ
close_one none closed = closed
close_one (some zero) closed = closed
close_one (some (suc n)) closed = suc n ∷ closed

unfoldable pub close_both : (ani_sockfd sw_sockfd : Option ℕ) → List ℕ
close_both ani_sockfd sw_sockfd = close_one sw_sockfd (close_one ani_sockfd [])

-- How `main` goes on: it exits with success, or with a failure where `exit_func` has not been set; it has
-- closed these descriptors and exits with a failure, and `exit` runs `exit_func`, whose `pthread_join` gets
-- the handle -1 of no thread, of which nothing is known; or it enters its loop.
pub data Started : Type 0 where
  exit_success : Started
  exit_failure : Started
  joins_no_thread : (closed : List ℕ) → Started
  in_loop : Options → State → Started

-- The connection of the switch.
unfoldable pub connected : Options → (ani_sockfd : Option ℕ) → Run Bool → Started
connected o ani_sockfd (ok true s) = in_loop o s
connected o ani_sockfd (ok false s) = joins_no_thread (close_both ani_sockfd s.sw_sockfd)
connected o ani_sockfd r = exit_failure

unfoldable pub with_socket : Env → Options → Bool × Option ℕ → Started
with_socket e o (true, ani_sockfd) =
    connected o ani_sockfd (create_switch_socket e (initial o.cbench))
with_socket e o (false, ani_sockfd) = joins_no_thread (close_both ani_sockfd none)

unfoldable pub with_options : (exit_set : Bool) → Listening → Env → Option Options → Started
with_options exit_set c e none = exit_success
with_options exit_set c e (some o) =
    if exit_set then with_socket e o (create_ani_socket c) else exit_failure

-- `exit_set`: whether `atexit` works.
unfoldable pub ani_main : (exit_set : Bool) → Listening → Env → List Opt → Started
ani_main exit_set c e opts = with_options exit_set c e (read_options opts default_options)
