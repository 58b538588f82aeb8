-- ===== src/Relay/Sockets.antt =====
-- The sockets of stage0.cpp.
use daim.Prelude.{◌==◌, ℕ, Bool, true, false, Option, none, some, List, [], ◌∷◌, if◌then◌else◌}

-- What the calls that set up the sockets return: a descriptor, `none` for a negative number; `true` for
-- a call that works.
pub record Setup : Type 0 where
  pub app_socket : Option ℕ
  pub bind : Bool
  pub listen : Bool
  pub accept : Option ℕ
  pub con_socket : Option ℕ
  pub gethostbyname : Bool
  pub connect : Bool

-- The three descriptors, -1 as `none`, and the descriptors that the process has open.
pub record Sockets : Type 0 where
  pub app_sockfd : Option ℕ
  pub sw_sockfd : Option ℕ
  pub con_sockfd : Option ℕ
  pub open_fds : List ℕ

abbrev pub no_sockets : Sockets
no_sockets = record { app_sockfd = none; sw_sockfd = none; con_sockfd = none; open_fds = [] }

abbrev pub opened : Option ℕ → List ℕ → List ℕ
opened none fds = fds
opened (some n) fds = n ∷ fds

-- `false` stands for -1.
unfoldable pub accept_switch : Setup → Sockets → Bool × Sockets
accept_switch c s =
    let s1 = record s { sw_sockfd = c.accept; open_fds = opened c.accept s.open_fds } in
    elim (c.accept) [ none ↦ (false, s1) | some fd ↦ (true, s1) ]

unfoldable pub create_app_socket : Setup → Sockets → Bool × Sockets
create_app_socket c s =
    let s1 = record s { app_sockfd = c.app_socket; open_fds = opened c.app_socket s.open_fds } in
    elim (c.app_socket) [
      | none ↦ (false, s1)
      | some fd ↦
          if c.bind then (if c.listen then accept_switch c s1 else (false, s1)) else (false, s1)
    ]

unfoldable pub create_controller_socket : Setup → Sockets → Bool × Sockets
create_controller_socket c s =
    let s1 = record s { con_sockfd = c.con_socket; open_fds = opened c.con_socket s.open_fds } in
    elim (c.con_socket) [
      | none ↦ (false, s1)
      | some fd ↦
          if c.gethostbyname then (if c.connect then (true, s1) else (false, s1)) else (false, s1)
    ]

-- `fd < 0`: only -1 is below 0.
unfoldable pub is_negative : Option ℕ → Bool
is_negative none = true
is_negative (some n) = false

unfoldable pub without : ℕ → List ℕ → List ℕ
without n [] = []
without n (fd ∷ fds) = let rest = without n fds in if fd == n then rest else fd ∷ rest

-- `close`: the descriptor is not open any more; for -1 it fails, and changes nothing.
unfoldable pub close : Option ℕ → List ℕ → List ℕ
close none fds = fds
close (some n) fds = without n fds

-- `if (fd < 0) close (fd);`
unfoldable pub close_socket : Option ℕ → List ℕ → List ℕ
unfolding is_negative close
close_socket fd fds = if is_negative fd then close fd fds else fds

unfoldable pub close_sockets : Sockets → Sockets
close_sockets s = record s {
  open_fds =
      close_socket s.con_sockfd (close_socket s.sw_sockfd (close_socket s.app_sockfd s.open_fds));
}
