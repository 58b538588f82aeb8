-- ===== src/Con/Invariant.antt =====
-- The invariant of the tables of the controller, and runs that keep it.
use daim.Prelude.{ℕ, ◌≡◌, refl, inl, inr, Bool, true, false, List, ◌==◌, if◌then◌else◌, Bool-cases}
use daim.Wire.Ofp.{ip6_data, arp_data}
use daim.Table.Ops.{Table, rewound}
use daim.Con.State.{
  Env, State, SwitchPort, SwitchHost, SwitchLink, SwitchReply, Count, error, bytes_done, Ret, Run,
  ok, undefined, deadlock, exited, out_of_fuel, M, Ends, and_then,
}
use daim.Con.Reply.{after_send, action_hello, action_echo}
use daim.Con.PacketIn.{PacketIn}
use daim.Con.Sending.{send_hello_lem, send_features_request_lem, send_echo_reply_lem}
use daim.Con.Forwarding.{Decision, Handled}
use daim.Con.Packet.{hosts_after}
use daim.Con.Learning.{Distinct, learned-Distinct}

-- The tables are whole, all cursors but that of the hosts are rewound, and no two hosts have one
-- address.
pub record IsSound (hosts : Table SwitchHost) (ports : Table SwitchPort) (links : Table SwitchLink)
    (replys : Table SwitchReply) : Type 0 where
  pub hosts_whole : hosts.broken ≡ false
  pub ports_whole : ports.broken ≡ false
  pub ports_start : ports.cursor ≡ rewound
  pub links_whole : links.broken ≡ false
  pub replys_whole : replys.broken ≡ false
  pub links_start : links.cursor ≡ rewound
  pub replys_start : replys.cursor ≡ rewound
  pub distinct : Distinct hosts.items

pub IsSound-ports :
    {hosts : Table SwitchHost} {ports : Table SwitchPort} {links : Table SwitchLink}
    {replys : Table SwitchReply} (xs : List SwitchPort)
    → IsSound hosts ports links replys
    → IsSound hosts (record { items = xs; cursor = rewound; broken = false }) links replys
IsSound-ports xs sound = record {
  hosts_whole = sound.hosts_whole;
  ports_whole = refl;
  ports_start = refl;
  links_whole = sound.links_whole;
  replys_whole = sound.replys_whole;
  links_start = sound.links_start;
  replys_start = sound.replys_start;
  distinct = sound.distinct;
}

abbrev pub Sound : State → Type 0
Sound s = IsSound s.hosts s.ports s.links s.sw_replys

-- An action ends in a sound state and leaves the bytes that were read.
abbrev pub Kept : State → State → Type 0
Kept s s' = Sound s' × (s'.read_buffer ≡ s.read_buffer)

-- A run does nothing undefined, and if it comes to its end, it ends like this. `F` is what has to
-- hold where the fuel is used up.
abbrev pub Safe : {X : Type 0} → (F : Type 0) → (X → State → Type 0) → Run X → Type 0
Safe F P (ok x s) = P x s
Safe F P undefined = ⊥
Safe F P deadlock = Unit {0}
Safe F P (exited s) = Unit {0}
Safe F P out_of_fuel = F

-- A run that ends, ends like this.
abbrev pub Partly : {X : Type 0} → (X → State → Type 0) → Run X → Type 0
Partly P (ok x s) = P x s
Partly P _ = Unit {0}

pub and_then-Partly :
    {X Y : Type 0} (P : X → State → Type 0) (Q : Y → State → Type 0) (k : X → M Y)
    → ((x : X) (s : State) → P x s → Partly Q (k x s))
    → (run : Run X) → Partly P run
    → Partly Q (and_then run k)
and_then-Partly P Q k next (ok x s) h = next x s h
and_then-Partly P Q k next undefined h = tt
and_then-Partly P Q k next deadlock h = tt
and_then-Partly P Q k next (exited s) h = tt
and_then-Partly P Q k next out_of_fuel h = tt

pub if-Partly :
    {X : Type 0} (P : X → State → Type 0) (b : Bool) (m n : M X) (s : State)
    → Partly P (m s)
    → Partly P (n s)
    → Partly P ((if b then m else n) s)
if-Partly P true m n s h k = h
if-Partly P false m n s h k = k

pub Ends-Partly : {X : Type 0} (P : X → State → Type 0) (run : Run X) → Ends P run → Partly P run
Ends-Partly P (ok x s) h = h
Ends-Partly P undefined h = tt
Ends-Partly P deadlock h = tt
Ends-Partly P (exited s) h = tt
Ends-Partly P out_of_fuel h = tt

pub Safe-Partly : {X : Type 0} (P : X → State → Type 0) (run : Run X) → Safe ⊥ P run → Partly P run
Safe-Partly P (ok x s) h = h
Safe-Partly P undefined h = tt
Safe-Partly P deadlock h = tt
Safe-Partly P (exited s) h = tt
Safe-Partly P out_of_fuel h = tt

module _ (F : Type 0) where
  pub and_then-Safe :
      {X Y : Type 0} (P : X → State → Type 0) (Q : Y → State → Type 0) (k : X → M Y)
      → ((x : X) (s : State) → P x s → Safe F Q (k x s))
      → (run : Run X) → Safe F P run
      → Safe F Q (and_then run k)
  and_then-Safe P Q k next (ok x s) h = next x s h
  and_then-Safe P Q k next undefined h = elim h [ ]
  and_then-Safe P Q k next deadlock h = tt
  and_then-Safe P Q k next (exited s) h = tt
  and_then-Safe P Q k next out_of_fuel h = h

  -- What follows a safe run only matters for the states that it can end in.
  pub and_then-cong :
      {X Y : Type 0} (P : X → State → Type 0) (k k' : X → M Y)
      → ((x : X) (s : State) → P x s → k x s ≡ k' x s)
      → (run : Run X) → Safe F P run
      → and_then run k ≡ and_then run k'
  and_then-cong P k k' same (ok x s) h = same x s h
  and_then-cong P k k' same undefined h = elim h [ ]
  and_then-cong P k k' same deadlock h = refl
  and_then-cong P k k' same (exited s) h = refl
  and_then-cong P k k' same out_of_fuel h = refl

  pub Safe-weaken :
      {X : Type 0} (P Q : X → State → Type 0)
      → ((x : X) (s : State) → P x s → Q x s)
      → (run : Run X) → Safe F P run
      → Safe F Q run
  Safe-weaken P Q weaken (ok x s) h = weaken x s h
  Safe-weaken P Q weaken undefined h = elim h [ ]
  Safe-weaken P Q weaken deadlock h = tt
  Safe-weaken P Q weaken (exited s) h = tt
  Safe-weaken P Q weaken out_of_fuel h = h

  pub if-Safe :
      {X : Type 0} (P : X → State → Type 0) (b : Bool) (m n : M X) (s : State)
      → Safe F P (m s)
      → Safe F P (n s)
      → Safe F P ((if b then m else n) s)
  if-Safe P true m n s h k = h
  if-Safe P false m n s h k = k

  -- A run that ends well is safe.
  pub Ends-Safe :
      {X : Type 0} (P Q : X → State → Type 0)
      → ((x : X) (s : State) → P x s → Q x s)
      → (run : Run X) → Ends P run
      → Safe F Q run
  Ends-Safe P Q weaken (ok x s) h = weaken x s h
  Ends-Safe P Q weaken undefined h = elim h [ ]
  Ends-Safe P Q weaken deadlock h = elim h [ ]
  Ends-Safe P Q weaken (exited s) h = elim h [ ]
  Ends-Safe P Q weaken out_of_fuel h = elim h [ ]

pub after_send-holds :
    (P : State → Type 0) (c : Count) (s : State) (next : State → Ret × State)
    → P s
    → P (next s).1
    → P (after_send c s next).1
unfolding after_send
after_send-holds P error s next here after = here
after_send-holds P (bytes_done n) s next here after = elim (Bool-cases (n == 0)) [
  | inl z ↦ simp z here
  | inr z ↦ simp z after
]

pub hosts_after-Distinct :
    (s : State) (p : PacketIn) → Distinct s.hosts.items → Distinct (hosts_after s p)
hosts_after-Distinct s p d = elim (Bool-cases (p.eth_type == ip6_data)) [
  | inl a ↦ simp a d
  | inr a ↦ elim (Bool-cases (p.eth_type == arp_data)) [
    | inl b ↦ simp (a, b) (learned-Distinct s.hosts.items _ d)
    | inr b ↦ simp (a, b) d
  ]
]

module _ (e : Env) where
  pub action_hello-Kept :
      (of_buffer : ℕ) (s : State) → Sound s → Kept s (action_hello e of_buffer s).1
  unfolding action_hello
  action_hello-Kept of_buffer s sound =
      simp (send_hello_lem, send_features_request_lem)
        (after_send-holds (Kept s) _ _ _ (sound, refl)
          (after_send-holds (Kept s) _ _ _ (sound, refl) (sound, refl)))

  pub action_echo-Kept :
      (of_buffer : ℕ) (s : State) → Sound s → Kept s (action_echo e of_buffer s).1
  unfolding action_echo
  action_echo-Kept of_buffer s sound =
      simp send_echo_reply_lem (after_send-holds (Kept s) _ _ _ (sound, refl) (sound, refl))

  pub Handled-Kept :
      (p : PacketIn) (d : Decision) (hosts : List SwitchHost) (s s' : State)
      → Sound s
      → Distinct hosts
      → Handled e p d hosts s s'
      → Kept s s'
  Handled-Kept p d hosts s s' sound distinct h = (
    record {
      hosts_whole = h.whole;
      ports_whole = rw (h.ports_same) sound.ports_whole;
      ports_start = rw (h.ports_same) sound.ports_start;
      links_whole = rw (h.links_same) sound.links_whole;
      replys_whole = rw (h.replys_same) sound.replys_whole;
      links_start = rw (h.links_same) sound.links_start;
      replys_start = rw (h.replys_same) sound.replys_start;
      distinct = rw (h.items) distinct;
    },
    h.buffer_same,
  )
