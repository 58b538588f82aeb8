-- ===== src/Ani21/Exit.antt =====
-- How ANIv21/ani.cpp exits: `exit_func`, which `main` gives to `atexit`, and `exit_handler`. `main` itself
-- is the code of ANIv41/ani.cpp.
use daim.Prelude.{ℕ, ◌≡◌, refl, Bool, true, Option, [], if◌then◌else◌}
use daim.Table.Ops.{free_list}
use daim.Con.State.{State, deadlock, exited, M}
use daim.Con.Start.{close_one}
use daim.Con.Reconnect.{free_list-whole}
use daim.Con.Invariant.{Sound}
use daim.Con.Exit.{close_sockets, Exits}

-- `joined`: whether `pthread_join` comes to an end. Only two tables are freed.
unfoldable pub exit_func : (joined : Bool) → (ani_sockfd : Option ℕ) → M (Unit {0})
unfolding close_sockets
exit_func joined ani_sockfd s =
    if joined
    then (let s1 = close_sockets ani_sockfd s in
        exited (record s1 { hosts = free_list s1.hosts; ports = free_list s1.ports }))
    else deadlock

unfoldable pub exit_handler : (joined : Bool) → (ani_sockfd : Option ℕ) → M (Unit {0})
unfolding exit_func
exit_handler joined ani_sockfd = exit_func joined ani_sockfd

-- With sound tables, and where `pthread_join` comes to an end, the exit after a signal frees the two
-- tables and closes both sockets that are above 0.
pub exit_handler-Exits :
    (ani_sockfd : Option ℕ) (s : State)
    → Sound s
    → Exits
        (λ s'.
          (s'.hosts.items ≡ [])
          × (s'.ports.items ≡ [])
          × (s'.closed ≡ close_one s.sw_sockfd (close_one ani_sockfd s.closed)))
        (exit_handler true ani_sockfd s)
unfolding exit_handler exit_func close_sockets
exit_handler-Exits ani_sockfd s sound = (
  (free_list-whole s.hosts sound.hosts_whole).0,
  (free_list-whole s.ports sound.ports_whole).0,
  refl,
)
