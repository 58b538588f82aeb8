-- ===== src/Con/Ports.antt =====
-- What `action_features_reply` records of a switch, and what it sends.
use daim.Prelude.{
  ℕ, zero, suc, ◌+◌, ◌*◌, ◌%◌, ◌^◌, ◌≤◌, ◌<◌, ◌≡◌, ◌⊎◌, inl, inr, ◌==◌, le→leb, refl, ap, true,
  false, none, List, [], ◌∷◌, ◌++◌, append_assoc, append-nil, arith, eq_ne,
}
use native.Mathlib.Nat.{add-zero}
use daim.Wire.Order.{htonl, htons, ntohs, be64toh}
use daim.Wire.Buffer.{Buffer, zeros, get16, get64}
use daim.Wire.Build.{create_of_switch_config}
use daim.Wire.Format.{config_format, switch_config_lem}
use daim.Wire.Ofp.{ofpt_features_reply}
use daim.Table.Ops
use daim.Table.Ops.{Table, granted, rewound, list_rewind, add_whole}
use daim.Table.Loops.{find_object-found, found-never}
use daim.Con.State.{Env, State, SwitchPort, Message, Ret, ret_neg1, ok, Ends}
use daim.Con.Reply.{xid_of}
use daim.Con.Features.{
  port_count, rounds, port_at, port_inside, show_ports, config_ret, add_port, add_ports,
  send_config, record_switch, action_features_reply,
}
use daim.Con.Sending.{delivered, deliver}

-- A features reply of `n` ports is 32 + 48 * n bytes long.
pub port_count_lem : (n : ℕ) → 32 + 48 * n < 2 ^ 16 → port_count (32 + 48 * n) ≡ n
unfolding port_count
port_count_lem n h = omega arith

port_count-zero : (length : ℕ) → 32 ≤ length → length < 80 → port_count length ≡ 0
unfolding port_count
port_count-zero length lo hi = omega arith

pub rounds_lem : (n : ℕ) → n < 2 ^ 31 → rounds n ≡ n
unfolding rounds
rounds_lem n h = ground arith

-- A reply that states a length below that of the fixed part makes the subtraction wrap: the loop
-- over the ports then makes more than a thousand million rounds.
pub port_count_wraps : (length : ℕ) → length < 32 → 1_000_000_000 < rounds (port_count length)
unfolding port_count rounds
port_count_wraps length h = ground arith

-- The ports that the loop reads, `n` of them from the `i`-th on.
unfoldable pub ports_of : Buffer → (switch_id of_buffer n i : ℕ) → List SwitchPort
ports_of b switch_id of_buffer zero i = []
ports_of b switch_id of_buffer (suc n) i =
    port_at b switch_id of_buffer i ∷ ports_of b switch_id of_buffer n (i + 1)

pub port_inside_lem :
    (of_buffer i n : ℕ)
    → of_buffer + 32 + 48 * (i + suc n) ≤ 3072000
    → port_inside of_buffer i ≡ true
unfolding port_inside
port_inside_lem of_buffer i n inside =
    le→leb (of_buffer + 32 + 48 * i + 8) 3072000 (omega (arith, inside))

pub inside_next :
    (of_buffer i n : ℕ)
    → of_buffer + 32 + 48 * (i + suc n) ≤ 3072000
    → of_buffer + 32 + 48 * (i + 1 + n) ≤ 3072000
inside_next of_buffer i n inside = omega (arith, inside)

-- The number of ports in a features reply.
abbrev pub ports_in : (of_buffer : ℕ) → State → ℕ
ports_in of_buffer s = port_count (ntohs (get16 s.read_buffer (of_buffer + 2)))

-- A message that, if it is a features reply, has its fixed part and lies in the buffer.
abbrev pub Inside : (kind of_buffer : ℕ) → Buffer → Type 0
Inside kind of_buffer b =
    let len = ntohs (get16 b (of_buffer + 2)) in
    ((kind == ofpt_features_reply) ≡ false) ⊎ (32 ≤ len) × (of_buffer + len ≤ 3072000)

port_count-few : (len : ℕ) → 32 ≤ len → len ≤ 3072000 → 48 * port_count len + 32 ≤ len
unfolding port_count
port_count-few len fixed short = omega arith

rounds_le : (n : ℕ) → rounds n ≤ n
unfolding rounds
rounds_le n = ground arith

-- Its ports then lie in the buffer too.
ports_inside :
    (of_buffer len : ℕ)
    → 32 ≤ len
    → of_buffer + len ≤ 3072000
    → of_buffer + 32 + 48 * (0 + rounds (port_count len)) ≤ 3072000
ports_inside of_buffer len fixed inside =
    let few : 48 * port_count len + 32 ≤ len = port_count-few len fixed (omega (arith, inside)) in
    let fewer : rounds (port_count len) ≤ port_count len = rounds_le (port_count len) in
    omega (arith, few, fewer, inside)

pub Inside-ports :
    (kind of_buffer : ℕ) (b : Buffer)
    → (kind == ofpt_features_reply) ≡ true
    → Inside kind of_buffer b
    → of_buffer + 32 + 48 * (0 + rounds (port_count (ntohs (get16 b (of_buffer + 2))))) ≤ 3072000
Inside-ports kind of_buffer b reply (inl other) = let no : ⊥ = cc in elim no [ ]
Inside-ports kind of_buffer b reply (inr (fixed, inside)) =
    ports_inside of_buffer (ntohs (get16 b (of_buffer + 2))) fixed inside

count_on : (a n : ℕ) → a + 1 + n ≡ a + suc n
count_on a n = omega arith

module _ (e : Env) (grants : (k : ℕ) → e.grant k ≡ granted) where
  abbrev pub with_ports : State → List SwitchPort → ℕ → State
  with_ports s ps n = record s {
    ports = record {
      items = s.ports.items ++ ps;
      cursor = s.ports.cursor;
      broken = s.ports.broken;
    };
    allocations = s.allocations + n;
  }

  add_port-granted :
      (p : SwitchPort) (s : State)
      → s.ports.broken ≡ false
      → add_port e p s ≡ ok true (with_ports s (p ∷ []) 1)
  unfolding add_port Ops.add_object add_whole
  add_port-granted p s whole = simp (whole, grants)

  pub add_ports-granted :
      (n of_buffer i : ℕ) (s : State)
      → of_buffer + 32 + 48 * (i + n) ≤ 3072000
      → s.ports.broken ≡ false
      → add_ports e n of_buffer i s
        ≡ ok tt (with_ports s (ports_of s.read_buffer s.switch_id of_buffer n i) n)
  unfolding add_ports ports_of
  add_ports-granted zero of_buffer i s inside whole = simp (append-nil, add-zero)
  add_ports-granted (suc n) of_buffer i s inside whole = simp (
    port_inside_lem of_buffer i n inside,
    add_port-granted (port_at s.read_buffer s.switch_id of_buffer i) s whole,
    add_ports-granted n of_buffer (i + 1)
        (with_ports s (port_at s.read_buffer s.switch_id of_buffer i ∷ []) 1)
        (inside_next of_buffer i n inside) whole,
    append_assoc,
    count_on,
  )

-- The datapath id that the reply states.
abbrev pub datapath_at : State → (of_buffer : ℕ) → ℕ
datapath_at s of_buffer = be64toh (get64 s.read_buffer (of_buffer + 8))

abbrev pub config_trace : State → (of_buffer : ℕ) → List Message
config_trace s of_buffer = config_format ((xid_of s of_buffer + 1) % 2 ^ 32) 0 128 ∷ s.sent

-- The outcome of a features reply of `n` ports.
pub record Recorded (e : Env) (s : State) (of_buffer n : ℕ) (r : Ret) (s' : State) : Type 0 where
  pub returned : r ≡ config_ret (e.send (config_trace s of_buffer))
  pub items :
      s'.ports.items
      ≡ s.ports.items ++ ports_of s.read_buffer (datapath_at s of_buffer) of_buffer n 0
  pub cursor : s'.ports.cursor ≡ rewound
  pub switch : s'.switch_id ≡ datapath_at s of_buffer
  pub count : s'.no_of_ports ≡ n
  pub unlocked : s'.links_mutex ≡ false
  pub messages : s'.sent ≡ config_trace s of_buffer
  pub started : s'.threads ≡ s.threads + 1

module _ (e : Env) where
  pub send_config_lem :
      (s : State)
      → send_config e s
        ≡ ok
            (config_ret (e.send (config_format ((s.transaction_id + 1) % 2 ^ 32) 0 128 ∷ s.sent)))
            (delivered e (config_format ((s.transaction_id + 1) % 2 ^ 32) 0 128) (record s {
              write_buffer =
                  create_of_switch_config zeros
                    (htonl ((s.transaction_id + 1) % 2 ^ 32))
                    (htons 0)
                    (htons 128);
              transaction_id = (s.transaction_id + 1) % 2 ^ 32;
            }))
  unfolding send_config create_of_switch_config get16 ntohs
  send_config_lem s =
      ap (λ (t : State). ok (config_ret t.write_buffer_len) t)
        (deliver e _ _ (switch_config_lem zeros _ 0 128))

  pub show_ports-rewound :
      (s : State)
      → s.ports.broken ≡ false
      → s.ports.cursor ≡ rewound
      → show_ports s ≡ ok none (record s { ports = list_rewind s.ports })
  unfolding show_ports list_rewind
  show_ports-rewound s whole start =
      simp (find_object-found (λ _. false) s.ports whole start, found-never)

  -- A features reply whose length has room for no port (from 32 to 79 bytes) makes the function return
  -- -1 and leaves the mutex locked, if it was free.
  pub action_features_reply-no_port :
      (of_buffer : ℕ) (s : State)
      → s.links_mutex ≡ false
      → 32 ≤ ntohs (get16 s.read_buffer (of_buffer + 2))
      → ntohs (get16 s.read_buffer (of_buffer + 2)) < 80
      → action_features_reply e of_buffer s
        ≡ ok ret_neg1
            (record s { transaction_id = xid_of s of_buffer; links_mutex = true; no_of_ports = 0 })
  unfolding action_features_reply record_switch
  action_features_reply-no_port of_buffer s free lo hi =
      simp (free, port_count-zero (ntohs (get16 s.read_buffer (of_buffer + 2))) lo hi)

  -- A features reply in the buffer whose length is that of `n` ports, at least one, with a free mutex, a whole and
  -- rewound port table and granted memory: the function ends, and has added exactly these ports in
  -- their order, with the datapath id of the reply, has started the thread, released the mutex, and
  -- sent a switch configuration with the next transaction id; the result of `send` decides what is
  -- returned.
  pub action_features_reply-Recorded :
      (of_buffer n : ℕ) (s : State)
      → ((k : ℕ) → e.grant k ≡ granted)
      → ntohs (get16 s.read_buffer (of_buffer + 2)) ≡ 32 + 48 * n
      → 0 < n
      → 32 + 48 * n < 2 ^ 16
      → of_buffer + (32 + 48 * n) ≤ 3072000
      → s.links_mutex ≡ false
      → s.ports.broken ≡ false
      → s.ports.cursor ≡ rewound
      → Ends (Recorded e s of_buffer n) (action_features_reply e of_buffer s)
  unfolding action_features_reply record_switch list_rewind
  action_features_reply-Recorded of_buffer n s grants len pos fits inside free whole start =
      let s2 : State = record s {
        switch_id = datapath_at s of_buffer;
        links_mutex = true;
        transaction_id = xid_of s of_buffer;
        no_of_ports = n;
        threads = s.threads + 1;
      } in
      let s3 : State =
        with_ports e grants s2 (ports_of s2.read_buffer s2.switch_id of_buffer n 0) n in
      simp
        (
          free,
          len,
          port_count_lem n fits,
          eq_ne n 0 (λ z. omega arith),
          rounds_lem n (omega arith),
          add_ports-granted e grants n of_buffer 0 s2 (omega (arith, inside)) whole,
          show_ports-rewound (record s3 { links_mutex = false }) whole start,
          send_config_lem,
        )
        (record {
          returned = refl;
          items = refl;
          cursor = refl;
          switch = refl;
          count = refl;
          unlocked = refl;
          messages = refl;
          started = refl;
        })
