-- ===== src/Con/Reconnect.antt =====
-- `communicate_with_switch`, and the loop of `main` in ANIv41/ani.cpp around it.
use daim.Prelude.{
  ℕ, zero, suc, ◌+◌, ◌≡◌, refl, sym, inl, inr, Bool, false, not, Option, none, some, List, [], ◌∷◌,
  arith, ◌==◌, Option-cases, List-cases,
}
use mathlib.Core.Path.{subst, fun_ext}
use daim.Wire.Buffer.{Buffer, zeros}
use daim.Table.Ops.{Table, rewound, free_list, left_behind}
use daim.Con.State.{Env, State, Count, error, bytes_done, Run, ok, exited, Ends}
use daim.Con.Dispatch.{
  filled, read_from_switch, create_switch_socket, close_switch, free_tables, reconnect,
}
use daim.Con.Learning.{Distinct}
use daim.Con.Invariant.{Sound}

pub free_list-whole :
    {A : Type 0} (t : Table A)
    → t.broken ≡ false
    → ((free_list t).items ≡ [])
      × ((free_list t).broken ≡ false)
      × (t.cursor ≡ rewound → (free_list t).cursor ≡ rewound)
unfolding free_list left_behind
free_list-whole t whole = elim (List-cases t.items) [
  | inl none_left ↦ simp (whole, none_left) (refl, refl, λ start. start)
  | inr (x, rest, some_left) ↦ simp (whole, some_left) (refl, refl, λ start. simp start)
]

-- The descriptors after `close_switch`, whose test leaves out the descriptor 0.
abbrev pub closed_after : Option ℕ → List ℕ → List ℕ
closed_after none closed = closed
closed_after (some zero) closed = closed
closed_after (some (suc n)) closed = suc n ∷ closed

abbrev pub fd_after : Option ℕ → Option ℕ → Option ℕ
fd_after none fd = fd
fd_after (some zero) fd = fd
fd_after (some (suc n)) fd = none

pub close_switch_lem :
    (o : Option ℕ) (s : State)
    → close_switch o s
      ≡ record s { sw_sockfd = fd_after o s.sw_sockfd; closed = closed_after o s.closed }
unfolding close_switch
close_switch_lem none s = refl
close_switch_lem (some zero) s = refl
close_switch_lem (some (suc n)) s = refl

-- `s` when the old connection is closed, with the result of `accept`.
abbrev pub reconnected : Env → State → State
reconnected e s = record s {
  hosts = free_list s.hosts;
  ports = free_list s.ports;
  links = free_list s.links;
  sw_replys = free_list s.sw_replys;
  closed = closed_after s.sw_sockfd s.closed;
  accepts = s.accepts + 1;
  sw_sockfd = e.accept s.accepts;
}

-- Where `accept` fails the program exits.
abbrev pub accepted : Option ℕ → State → Run (Unit {0})
accepted none s = exited s
accepted (some fd) s = ok tt s

pub reconnect_lem :
    (e : Env) (s : State) → reconnect e s ≡ accepted (e.accept s.accepts) (reconnected e s)
unfolding reconnect create_switch_socket free_tables
reconnect_lem e s = elim (Option-cases (e.accept s.accepts)) [
  | inl fails ↦ simp (close_switch_lem, fails)
  | inr (fd, works) ↦ simp (close_switch_lem, works)
]

pub reconnected-Sound : (e : Env) (s : State) → Sound s → Sound (reconnected e s)
reconnected-Sound e s sound =
    let (h_items, h_whole, _) = free_list-whole s.hosts sound.hosts_whole in
    let (_, p_whole, p_start) = free_list-whole s.ports sound.ports_whole in
    record {
      hosts_whole = h_whole;
      ports_whole = p_whole;
      ports_start = p_start sound.ports_start;
      links_whole = (free_list-whole s.links sound.links_whole).1;
      replys_whole = (free_list-whole s.sw_replys sound.replys_whole).1;
      links_start = (free_list-whole s.links sound.links_whole).2 sound.links_start;
      replys_start = (free_list-whole s.sw_replys sound.replys_whole).2 sound.replys_start;
      distinct = subst Distinct (sym h_items) tt;
    }

-- A read that fails, or that reads 0 bytes, and what it leaves.
abbrev pub Lost : Count → Type 0
Lost error = Unit {0}
Lost (bytes_done n) = n ≡ 0

pub filled-Lost : (c : Count) (content : Buffer) → Lost c → filled c content ≡ zeros
unfolding filled
filled-Lost error content lost = fun_ext (λ i. refl)
filled-Lost (bytes_done n) content lost = fun_ext (λ i. ground arith)

-- What the test of the result of `recv` says.
abbrev pub was_read : Count → Bool
was_read c = elim c [ error ↦ false | bytes_done n ↦ not (n == 0) ]

was_read-Lost : (c : Count) → Lost c → was_read c ≡ false
was_read-Lost error lost = refl
was_read-Lost (bytes_done n) lost = ground arith

abbrev pub lost_state : Env → State → State
lost_state e s = record s {
  recvs = s.recvs + 1;
  read_buffer = zeros;
  read_buffer_len = (e.recv s.recvs).count;
}

pub read_from_switch-Lost :
    (e : Env) (s : State)
    → Lost (e.recv s.recvs).count
    → read_from_switch e s ≡ ok false (lost_state e s)
unfolding read_from_switch
read_from_switch-Lost e s lost = simp (
  was_read-Lost (e.recv s.recvs).count lost,
  filled-Lost (e.recv s.recvs).count (e.recv s.recvs).content lost,
)

-- The state of a new connection: the tables are empty, and the old descriptor is closed.
pub record Renewed (s : State) (fd : ℕ) (s' : State) : Type 0 where
  pub no_hosts : s'.hosts.items ≡ []
  pub no_ports : s'.ports.items ≡ []
  pub no_links : s'.links.items ≡ []
  pub no_replys : s'.sw_replys.items ≡ []
  pub connected : s'.sw_sockfd ≡ some fd
  pub closed : s'.closed ≡ closed_after s.sw_sockfd s.closed
  pub silent : s'.sent ≡ s.sent

-- Where the tables are whole and `accept` gives a descriptor, the connection is replaced: the old one
-- is closed, unless its descriptor is 0, every table is emptied, and nothing is sent.
pub reconnect-Renewed :
    (e : Env) (fd : ℕ) (s : State)
    → Sound s
    → e.accept s.accepts ≡ some fd
    → Ends (λ _ s'. Renewed s fd s') (reconnect e s)
reconnect-Renewed e fd s sound works = rw (reconnect_lem e s) (
    rw works (record {
      no_hosts = (free_list-whole s.hosts sound.hosts_whole).0;
      no_ports = (free_list-whole s.ports sound.ports_whole).0;
      no_links = (free_list-whole s.links sound.links_whole).0;
      no_replys = (free_list-whole s.sw_replys sound.replys_whole).0;
      connected = refl;
      closed = refl;
      silent = refl;
    }))
