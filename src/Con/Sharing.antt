-- ===== src/Con/Sharing.antt =====
-- The rounds of `node_share_func`, one by one: what each sends, and what it leaves.
use daim.Prelude.{
  ℕ, zero, suc, ◌+◌, ◌≤◌, ◌<◌, ◌≡◌, refl, ap, ◌∙◌, inl, inr, true, false, List, [], ◌∷◌, ◌++◌,
  length, get_elem?, arith, ltb, leb, List-cases,
}
use daim.Wire.Order.{ntohs, be16, be64}
use daim.Wire.Buffer.{get16}
use daim.Wire.Ofp.{anim_echo_request}
use daim.Wire.Anim.{echo_buffer, node_buffer, envelope_format, echo_buffer_lem, node_buffer_lem}
use daim.Table.Ops.{Table, empty_table, rewound, on, list_rewind, free_list, left_behind}
use daim.Table.Loops.{
  before, Rest, Rest-tail, get_object-before, step_to-nil, step_to-cons, find_object-found,
  found-never,
}
use daim.Con.State.{Env, State, SwitchReply, Message, ok, M, pure, ◌>>=◌, send_buffer}
use daim.Con.Features.{rounds}
use daim.Con.Share.{
  ThreadPc, begin, echo, nodes, waiting, showing, send_echo_request, send_node, node_loop,
  share_nodes, show_links, share_links, share,
}

-- The messages that ask the neighbour behind a port, and that tell it the link.
abbrev pub request_format : (port : ℕ) → Message
request_format port = envelope_format 42 port ++ anim_echo_request ∷ 0 ∷ 0 ∷ 4 ∷ []

abbrev pub node_format : (datapath_id port : ℕ) → Message
node_format datapath_id port =
    envelope_format 58 port
    ++ 2 ∷ 0 ∷ be16 20
    ++ be64 datapath_id
    ++ be16 port
    ++ 0 ∷ 0 ∷ 0 ∷ 0 ∷ 0 ∷ 0 ∷ []

-- `sent` and then a request to each of the `n` ports from `i` on.
abbrev pub asked : (n i : ℕ) → List Message → List Message
asked zero i sent = sent
asked (suc n) i sent = asked n (i + 1) (request_format i ∷ sent)

-- `sent` and then a node message for each reply.
abbrev pub told : (datapath_id : ℕ) → List SwitchReply → List Message → List Message
told datapath_id [] sent = sent
told datapath_id (r ∷ rs) sent = told datapath_id rs (node_format datapath_id r.port_no ∷ sent)

-- `k` rounds of the thread.
unfoldable pub share_rounds : Env → ℕ → ThreadPc → M ThreadPc
share_rounds e zero pc = pure pc
share_rounds e (suc k) pc = share e pc >>= share_rounds e k

-- `s` with a free mutex, and the counter at `c`.
abbrev pub unlocked : State → ℕ → State
unlocked s c = record s { links_mutex = false; anim_node_counter = c }

module _ (e : Env) where
  pub send_echo_request_lem :
      (port : ℕ) (s : State)
      → send_echo_request e port s ≡ record s { sent = request_format port ∷ s.sent }
  unfolding send_echo_request send_buffer echo_buffer get16 ntohs
  send_echo_request_lem port s =
      ap (λ (m : Message). record s { sent = m ∷ s.sent }) (echo_buffer_lem anim_echo_request port)

  send_node_lem :
      (r : SwitchReply) (s : State)
      → send_node e r s ≡ record s { sent = node_format s.switch_id r.port_no ∷ s.sent }
  unfolding send_node send_buffer node_buffer get16 ntohs
  send_node_lem r s =
      ap (λ (m : Message). record s { sent = m ∷ s.sent }) (node_buffer_lem s.switch_id r.port_no)

  node_loop-told :
      (fuel k : ℕ) (s : State) (rs : List SwitchReply)
      → s.sw_replys.broken ≡ false
      → s.sw_replys.cursor ≡ before k
      → Rest s.sw_replys.items k rs
      → length rs < fuel
      → node_loop e fuel s
        ≡ ok tt (record s {
          sent = told s.switch_id rs s.sent;
          sw_replys = record (s.sw_replys) { cursor = rewound };
        })
  unfolding node_loop
  node_loop-told zero k s rs whole at rest less = let no : ⊥ = omega arith in elim no [ ]
  node_loop-told (suc fuel) k s [] whole at rest less =
      rw (get_object-before k s.sw_replys whole at ∙ step_to-nil k s.sw_replys rest, node_loop) refl
  node_loop-told (suc fuel) k s (r ∷ rs) whole at rest less =
      let s1 : State = record s {
        sent = node_format s.switch_id r.port_no ∷ s.sent;
        sw_replys = record (s.sw_replys) { cursor = on k };
      } in
      rw
        (get_object-before k s.sw_replys whole at ∙ step_to-cons k s.sw_replys r rs rest, node_loop)
        (ap (node_loop e fuel)
            (send_node_lem r (record s { sw_replys = record (s.sw_replys) { cursor = on k } }))
          ∙ node_loop-told fuel (suc k) s1 rs whole refl (Rest-tail s.sw_replys.items k r rs rest)
              (omega arith))

  pub share_rounds-step :
      (m : ℕ) (pc : ThreadPc) (s : State) (pc1 : ThreadPc) (s1 : State)
      → share e pc s ≡ ok pc1 s1
      → share_rounds e (suc m) pc s ≡ share_rounds e m pc1 s1
  unfolding share_rounds
  share_rounds-step m pc s pc1 s1 ran = rw ran refl

  pub begin_step :
      (s : State)
      → s.links_mutex ≡ false
      → share e begin s ≡ ok (echo 1 s.no_of_ports) (unlocked s 0)
  unfolding share
  begin_step s free = simp free

  pub echo_step :
      (i n : ℕ) (s : State)
      → i ≤ rounds n
      → share e (echo i n) s ≡ ok (echo (i + 1) n) (record s { sent = request_format i ∷ s.sent })
  unfolding share
  echo_step i n s more =
      let yes : leb i (rounds n) ≡ true = ground arith in simp (yes, send_echo_request_lem)

  pub echo_last : (i n : ℕ) (s : State) → rounds n < i → share e (echo i n) s ≡ ok nodes s
  unfolding share
  echo_last i n s past = let no : leb i (rounds n) ≡ false = ground arith in simp no

  pub nodes_step :
      (s : State) (c : ℕ)
      → s.sw_replys.broken ≡ false
      → s.sw_replys.cursor ≡ rewound
      → share e nodes (unlocked s c)
        ≡ ok waiting (record (unlocked s c) {
          sent = told s.switch_id s.sw_replys.items s.sent;
          sw_replys = list_rewind s.sw_replys;
        })
  unfolding share share_nodes list_rewind
  nodes_step s c whole start = simp (
      node_loop-told (length s.sw_replys.items + 1) 0 (record (unlocked s c) { links_mutex = true })
        s.sw_replys.items whole start (λ i. ap (get_elem? s.sw_replys.items) (omega arith))
        (omega arith))

  pub wait_step :
      (s : State) (c : ℕ)
      → c ≤ 20
      → share e waiting (unlocked s c) ≡ ok waiting (unlocked s (c + 1))
  unfolding share
  wait_step s c few = let no : ltb 20 c ≡ false = ground arith in simp no

  pub wait_last : (s : State) → share e waiting (unlocked s 21) ≡ ok showing (unlocked s 21)
  unfolding share
  wait_last s = refl

  empty_table-eq :
      {A : Type 0} (t : Table A)
      → t.items ≡ []
      → t.cursor ≡ rewound
      → t.broken ≡ false
      → t ≡ empty_table
  empty_table-eq t items cursor broken =
      ap (λ xs. record t { items = xs }) items
      ∙ ap (λ c. record t { items = []; cursor = c }) cursor
      ∙ ap (λ b. record { items = []; cursor = rewound; broken = b }) broken

  pub free_list-rewound :
      {A : Type 0} (t : Table A) → t.broken ≡ false → t.cursor ≡ rewound → free_list t ≡ empty_table
  unfolding free_list left_behind
  free_list-rewound t whole start = elim (List-cases t.items) [
    | inl none_left ↦
        let same : free_list t ≡ t = simp (whole, none_left) in
        same ∙ empty_table-eq t none_left start whole
    | inr (x, rest, some_left) ↦ simp (whole, some_left, start)
  ]

  pub showing_step :
      (s : State) (c : ℕ)
      → s.links.broken ≡ false
      → s.links.cursor ≡ rewound
      → s.sw_replys.broken ≡ false
      → s.sw_replys.cursor ≡ rewound
      → share e showing (unlocked s c)
        ≡ ok begin (record (unlocked s c) { sw_replys = empty_table; links = empty_table })
  unfolding share share_links show_links list_rewind
  showing_step s c links_whole links_start replys_whole replys_start = simp (
    find_object-found (λ _. false) s.links links_whole links_start,
    found-never,
    free_list-rewound,
  )
