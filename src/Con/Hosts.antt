-- ===== src/Con/Hosts.antt =====
-- The host table: what `find_host` finds, and what `learn` adds to it.
use daim.Prelude.{
  ℕ, ◌+◌, ◌≡◌, refl, inl, inr, true, false, Option, none, some, List, [], ◌∷◌, ◌++◌, Option-cases,
}
use daim.Wire.Buffer.{Mac}
use daim.Table.Ops
use daim.Table.Ops.{Table, Cursor, granted, rewound, list_rewind, add_whole}
use daim.Table.Loops.{found, stop, find_object-found, found-never, found-stop}
use daim.Con.State.{Env, State, SwitchHost, ok}
use daim.Con.PacketIn.{PacketIn, same_mac, find_host, show_hosts}
use daim.Con.Branches.{add_host, learn}

-- The host with this address that the table lists first.
abbrev pub host_of : Mac → List SwitchHost → Option SwitchHost
host_of mac hosts = found (λ (h : SwitchHost). same_mac h.mac_addr mac) hosts

-- `s` with these hosts; the cursor and the count of allocations are of no interest.
abbrev pub with_hosts : State → List SwitchHost → Cursor → ℕ → State
with_hosts s hosts cursor allocations = record s {
  hosts = record { items = hosts; cursor = cursor; broken = false };
  allocations = allocations;
}

pub find_host_lem :
    (mac : Mac) (s : State)
    → s.hosts.broken ≡ false
    → (c : Cursor) × (find_host mac s
        ≡ ok (host_of mac s.hosts.items) (with_hosts s s.hosts.items c s.allocations))
      × (host_of mac s.hosts.items ≡ none → c ≡ rewound)
unfolding find_host list_rewind
find_host_lem mac s whole = (
  stop (λ (h : SwitchHost). same_mac h.mac_addr mac) 0 s.hosts.items,
  simp
      (find_object-found (λ (h : SwitchHost). same_mac h.mac_addr mac) (list_rewind s.hosts) whole
        refl)
      (simp whole),
  found-stop (λ (h : SwitchHost). same_mac h.mac_addr mac) 0 s.hosts.items,
)

-- The entry for the sender of a packet.
abbrev pub sender : State → PacketIn → (ip_src : ℕ) → SwitchHost
sender s p ip_src = record {
  datapath_id = s.switch_id;
  port_no = p.in_port;
  mac_addr = p.src;
  ip_addr = ip_src;
}

-- The table after a host has been seen: it is added if its address is new.
abbrev pub entered : Option SwitchHost → List SwitchHost → SwitchHost → List SwitchHost
entered none hosts h = hosts ++ h ∷ []
entered (some _) hosts h = hosts

abbrev pub learned : List SwitchHost → SwitchHost → List SwitchHost
learned hosts h = entered (host_of h.mac_addr hosts) hosts h

add_host_lem :
    (e : Env) (h : SwitchHost) (s : State) (hosts : List SwitchHost) (c : Cursor) (a : ℕ)
    → ((k : ℕ) → e.grant k ≡ granted)
    → add_host e h (with_hosts s hosts c a) ≡ ok true (with_hosts s (hosts ++ h ∷ []) c (a + 1))
unfolding add_host Ops.add_object add_whole
add_host_lem e h s hosts c a grants = simp grants

pub show_hosts_lem :
    (s : State) (hosts : List SwitchHost) (a : ℕ)
    → show_hosts (with_hosts s hosts rewound a) ≡ ok none (with_hosts s hosts rewound a)
unfolding show_hosts list_rewind
show_hosts_lem s hosts a = simp (
  find_object-found (λ (h : SwitchHost). false) (with_hosts s hosts rewound a).hosts refl refl,
  found-never,
)

pub learn_lem :
    (e : Env) (p : PacketIn) (ip_src : ℕ) (s : State)
    → ((k : ℕ) → e.grant k ≡ granted)
    → s.hosts.broken ≡ false
    → (o : Option SwitchHost) × (c : Cursor) × (a : ℕ) × (learn e p ip_src s
        ≡ ok o (with_hosts s (learned s.hosts.items (sender s p ip_src)) c a))
unfolding learn
learn_lem e p ip_src s grants whole =
    let (c, ran, start) = find_host_lem p.src s whole in
    elim (Option-cases (host_of p.src s.hosts.items)) [
      | inl new ↦ (
        none,
        rewound,
        s.allocations + 1,
        simp (
          ran,
          new,
          start new,
          add_host_lem e (sender s p ip_src) s s.hosts.items rewound s.allocations grants,
          show_hosts_lem,
        ),
      )
      | inr (h, old) ↦ (none, c, s.allocations, simp (ran, old))
    ]
