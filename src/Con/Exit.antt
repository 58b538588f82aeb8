-- ===== src/Con/Exit.antt =====
-- How ANIv41/ani.cpp exits: `exit_func`, which `main` gives to `atexit`, and `exit_handler`.
use daim.Prelude.{ℕ, ◌≡◌, refl, Bool, true, Option, [], if◌then◌else◌}
use daim.Con.State.{State, Run, deadlock, exited, M}
use daim.Con.Dispatch.{free_tables}
use daim.Con.Start.{close_one}
use daim.Con.Reconnect.{free_list-whole}
use daim.Con.Invariant.{Sound}

-- `close_sockets`.
unfoldable pub close_sockets : (ani_sockfd : Option ℕ) → State → State
close_sockets ani_sockfd s = record s {
  closed = close_one s.sw_sockfd (close_one ani_sockfd s.closed);
}

-- `joined`: whether `pthread_join` comes to an end. It waits for the thread of the last features reply.
unfoldable pub exit_func : (joined : Bool) → (ani_sockfd : Option ℕ) → M (Unit {0})
exit_func joined ani_sockfd s =
    if joined then exited (free_tables (close_sockets ani_sockfd s)) else deadlock

-- `exit_handler` calls `exit`, which runs `exit_func`.
unfoldable pub exit_handler : (joined : Bool) → (ani_sockfd : Option ℕ) → M (Unit {0})
unfolding exit_func
exit_handler joined ani_sockfd = exit_func joined ani_sockfd

-- What a run that exits leaves.
abbrev pub Exits : (State → Type 0) → Run (Unit {0}) → Type 0
Exits P (exited s) = P s
Exits P _ = ⊥

pub record Cleared (ani_sockfd : Option ℕ) (s s' : State) : Type 0 where
  pub hosts_empty : s'.hosts.items ≡ []
  pub ports_empty : s'.ports.items ≡ []
  pub links_empty : s'.links.items ≡ []
  pub replys_empty : s'.sw_replys.items ≡ []
  pub closed : s'.closed ≡ close_one s.sw_sockfd (close_one ani_sockfd s.closed)
  pub sent_same : s'.sent ≡ s.sent

-- With sound tables, and where `pthread_join` comes to an end, the exit frees the four tables, closes
-- both sockets that are above 0, and sends nothing.
pub exit_func-Cleared :
    (ani_sockfd : Option ℕ) (s : State)
    → Sound s
    → Exits (Cleared ani_sockfd s) (exit_func true ani_sockfd s)
unfolding exit_func close_sockets free_tables
exit_func-Cleared ani_sockfd s sound = record {
  hosts_empty = (free_list-whole s.hosts sound.hosts_whole).0;
  ports_empty = (free_list-whole s.ports sound.ports_whole).0;
  links_empty = (free_list-whole s.links sound.links_whole).0;
  replys_empty = (free_list-whole s.sw_replys sound.replys_whole).0;
  closed = refl;
  sent_same = refl;
}
