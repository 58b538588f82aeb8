-- ===== src/Con/Spared.antt =====
-- The actions of _con.cpp where `add_object` may fail: what they do to the tables then.
use daim.Prelude.{
  ℕ, zero, suc, ◌+◌, ◌*◌, ◌≤◌, ◌≡◌, ◌≢◌, ◌⊎◌, refl, ap, ◌∙◌, inl, inr, Bool, true, false, Option,
  none, some, List, [], ◌∷◌, ◌++◌, Bool-cases, Option-cases,
}
use daim.Table.Ops
use daim.Table.Ops.{Table, Cursor, Grant, granted, no_object, no_chars, rewound, add_whole}
use daim.Con.State.{Env, State, SwitchHost, SwitchPort, ok, undefined}
use daim.Con.Features.{port_at, port_inside, add_port, add_ports}
use daim.Con.PacketIn.{PacketIn}
use daim.Con.Branches.{add_host, learn}
use daim.Con.Ports.{port_inside_lem, inside_next}
use daim.Con.Hosts.{host_of, with_hosts, find_host_lem, sender, learned, show_hosts_lem}

-- No object gets its first allocation without the second one.
abbrev pub Spared : Env → Type 0
Spared e = (k : ℕ) → e.grant k ≢ no_chars

-- `x` has been added to a table, or there was no memory for it.
abbrev pub MayAdd {ℓ} : {A : Type ℓ} → A → List A → List A → Type ℓ
MayAdd x xs xs' = (xs' ≡ xs ++ x ∷ []) ⊎ (xs' ≡ xs)

module _ {A : Type 0} where
  abbrev pub whole_table : List A → Cursor → Table A
  whole_table xs c = record { items = xs; cursor = c; broken = false }

  table_lem : (t : Table A) → t.broken ≡ false → t ≡ whole_table t.items t.cursor
  table_lem t whole =
      ap (λ (b : Bool). record { items = t.items; cursor = t.cursor; broken = b }) whole

  add_to_whole :
      (g : Grant) (x : A) (xs : List A) (c : Cursor)
      → g ≢ no_chars
      → (b : Bool) × (xs' : List A) × (Ops.add_object g x (whole_table xs c)
          ≡ some (b, whole_table xs' c))
        × MayAdd x xs xs'
  unfolding Ops.add_object add_whole
  add_to_whole granted x xs c spared = (true, xs ++ x ∷ [], refl, inl refl)
  add_to_whole no_object x xs c spared = (false, xs, refl, inr refl)
  add_to_whole no_chars x xs c spared = elim (spared refl) [ ]

  pub add_object-spared :
      (g : Grant) (x : A) (t : Table A)
      → g ≢ no_chars
      → t.broken ≡ false
      → (b : Bool) × (xs : List A) × (Ops.add_object g x t ≡ some (b, whole_table xs t.cursor))
        × MayAdd x t.items xs
  add_object-spared g x t spared whole =
      let (b, xs, ran, may) = add_to_whole g x t.items t.cursor spared in
      (b, xs, ap (Ops.add_object g x) (table_lem t whole) ∙ ran, may)

module _ (e : Env) (spared : Spared e) where
  pub add_ports-spared :
      (n of_buffer i : ℕ) (s : State)
      → of_buffer + 32 + 48 * (i + n) ≤ 3072000
      → s.ports.broken ≡ false
      → (xs : List SwitchPort) × (a : ℕ) × (add_ports e n of_buffer i s
          ≡ ok tt (record s { ports = whole_table xs s.ports.cursor; allocations = a }))
  unfolding add_ports add_port
  add_ports-spared zero of_buffer i s inside whole = (
    s.ports.items,
    s.allocations,
    ap (λ t. ok tt (record s { ports = t })) (table_lem s.ports whole),
  )
  add_ports-spared (suc n) of_buffer i s inside whole =
      let (b, xs, ran, may) =
        add_object-spared (e.grant s.allocations) (port_at s.read_buffer s.switch_id of_buffer i)
          s.ports (spared s.allocations) whole in
      let (ys, a, ran') =
        add_ports-spared n of_buffer (i + 1)
          (record s { ports = whole_table xs s.ports.cursor; allocations = s.allocations + 1 })
          (inside_next of_buffer i n inside) refl in
      (ys, a, simp (port_inside_lem of_buffer i n inside, ran, ran'))

  -- Wherever the ports lie: the loop has undefined behaviour, or it ends with a whole table.
  pub add_ports-either :
      (n of_buffer i : ℕ) (s : State)
      → s.ports.broken ≡ false
      → (add_ports e n of_buffer i s ≡ undefined)
        ⊎ ((xs : List SwitchPort) × (a : ℕ) × (add_ports e n of_buffer i s
              ≡ ok tt (record s { ports = whole_table xs s.ports.cursor; allocations = a })))
  unfolding add_ports add_port
  add_ports-either zero of_buffer i s whole = inr (
    s.ports.items,
    s.allocations,
    ap (λ t. ok tt (record s { ports = t })) (table_lem s.ports whole),
  )
  add_ports-either (suc n) of_buffer i s whole = elim (Bool-cases (port_inside of_buffer i)) [
    | inr behind ↦ inl (simp behind)
    | inl inside ↦
        let (b, xs, ran, may) =
          add_object-spared (e.grant s.allocations) (port_at s.read_buffer s.switch_id of_buffer i)
            s.ports (spared s.allocations) whole in
        elim (add_ports-either n of_buffer (i + 1)
          (record s { ports = whole_table xs s.ports.cursor; allocations = s.allocations + 1 })
          refl) [
            | inl bad ↦ inl (simp (inside, ran, bad))
            | inr (ys, a, ran') ↦ inr (ys, a, simp (inside, ran, ran'))
          ]
  ]

  add_host-spared :
      (h : SwitchHost) (s : State) (hosts : List SwitchHost) (c : Cursor) (a : ℕ)
      → (b : Bool) × (hosts' : List SwitchHost) × (add_host e h (with_hosts s hosts c a)
          ≡ ok b (with_hosts s hosts' c (a + 1)))
        × MayAdd h hosts hosts'
  unfolding add_host
  add_host-spared h s hosts c a =
      let (b, xs, ran, may) =
        add_object-spared (e.grant a) h (with_hosts s hosts c a).hosts (spared a) refl in
      (b, xs, simp ran, may)

  -- The hosts after a packet: with the sender, if it is new and there was memory for it.
  pub learn-spared :
      (p : PacketIn) (ip_src : ℕ) (s : State)
      → s.hosts.broken ≡ false
      → (o : Option SwitchHost) × (hosts : List SwitchHost) × (c : Cursor) × (a : ℕ) × (learn e p
            ip_src s
          ≡ ok o (with_hosts s hosts c a))
        × ((hosts ≡ learned s.hosts.items (sender s p ip_src)) ⊎ (hosts ≡ s.hosts.items))
  unfolding learn
  learn-spared p ip_src s whole =
      let (c, ran, start) = find_host_lem p.src s whole in
      elim (Option-cases (host_of p.src s.hosts.items)) [
        | inl new ↦
            let (b, hosts, ran', which) =
              add_host-spared (sender s p ip_src) s s.hosts.items rewound s.allocations in
            (
              none,
              hosts,
              rewound,
              s.allocations + 1,
              simp (ran, new, start new, ran', show_hosts_lem),
              rw new which,
            )
        | inr (h, old) ↦ (none, s.hosts.items, c, s.allocations, simp (ran, old), inr refl)
      ]
