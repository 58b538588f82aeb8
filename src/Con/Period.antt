-- ===== src/Con/Period.antt =====
-- One period of `node_share_func` when nothing else runs: what it sends, and how it ends.
use daim.Prelude.{ℕ, zero, suc, ◌+◌, ◌≤◌, ◌≡◌, refl, ap, ◌∙◌, false, ◌∷◌, arith}
use daim.Table.Ops.{empty_table, rewound, list_rewind}
use daim.Con.State.{Env, State, ok}
use daim.Con.Features.{rounds}
use daim.Con.Share.{begin, echo, nodes, waiting, showing}
use daim.Con.Sharing.{
  request_format, asked, told, share_rounds, unlocked, share_rounds-step, begin_step, echo_step,
  echo_last, nodes_step, wait_step, wait_last, showing_step,
}

module _ (e : Env) where
  echo_rounds :
      (k i j q m n : ℕ) (s : State)
      → j ≡ i + k
      → q ≡ k + m
      → j ≤ rounds n + 1
      → share_rounds e q (echo i n) s
        ≡ share_rounds e m (echo j n) (record s { sent = asked k i s.sent })
  echo_rounds zero i j q m n s at left fits =
      ap (λ (t : ℕ). share_rounds e t (echo i n) s) (omega arith)
      ∙ ap (λ (t : ℕ). share_rounds e m (echo t n) s) (omega arith)
  echo_rounds (suc k) i j q m n s at left fits =
      let s1 : State = record s { sent = request_format i ∷ s.sent } in
      ap (λ (t : ℕ). share_rounds e t (echo i n) s) (omega arith)
      ∙ share_rounds-step e (k + m) (echo i n) s (echo (i + 1) n) s1
          (echo_step e i n s (omega arith))
      ∙ echo_rounds k (i + 1) j (k + m) m n s1 (omega arith) refl fits

  wait_rounds :
      (k c d q m : ℕ) (s : State)
      → d ≡ c + k
      → q ≡ k + m
      → d ≤ 21
      → share_rounds e q waiting (unlocked s c) ≡ share_rounds e m waiting (unlocked s d)
  wait_rounds zero c d q m s at left fits =
      ap (λ (t : ℕ). share_rounds e t waiting (unlocked s c)) (omega arith)
      ∙ ap (λ (t : ℕ). share_rounds e m waiting (unlocked s t)) (omega arith)
  wait_rounds (suc k) c d q m s at left fits =
      ap (λ (t : ℕ). share_rounds e t waiting (unlocked s c)) (omega arith)
      ∙ share_rounds-step e (k + m) waiting (unlocked s c) waiting (unlocked s (c + 1))
          (wait_step e s c (omega arith))
      ∙ wait_rounds k (c + 1) d (k + m) m s (omega arith) refl fits

  -- One period of the thread, where the mutex is free and stays so, the tables of links and replies
  -- are whole and rewound, and nothing else runs: after as many rounds as there are ports, and 26
  -- more, the thread stands where it began. It has sent an echo request to every port from 1 to the
  -- number of ports, in order, then a node message to the port of every reply in the table, and both
  -- tables are empty.
  pub share_rounds-period :
      (s : State)
      → s.links_mutex ≡ false
      → s.links.broken ≡ false
      → s.links.cursor ≡ rewound
      → s.sw_replys.broken ≡ false
      → s.sw_replys.cursor ≡ rewound
      → share_rounds e (rounds s.no_of_ports + 26) begin s
        ≡ ok begin (record s {
          links_mutex = false;
          anim_node_counter = 21;
          sent = told s.switch_id s.sw_replys.items (asked (rounds s.no_of_ports) 1 s.sent);
          sw_replys = empty_table;
          links = empty_table;
        })
  unfolding share_rounds list_rewind
  share_rounds-period s free links_whole links_start replys_whole replys_start =
      let n = rounds s.no_of_ports in
      let s1 : State = record s { sent = asked n 1 s.sent } in
      let s2 : State = record s1 {
        sent = told s.switch_id s.sw_replys.items s1.sent;
        sw_replys = list_rewind s.sw_replys;
      } in
      let count : n + 26 ≡ suc (n + 25) = omega arith in
      ap (λ (k : ℕ). share_rounds e k begin s) count
      ∙ share_rounds-step e (n + 25) begin s (echo 1 s.no_of_ports) (unlocked s 0)
          (begin_step e s free)
      ∙ echo_rounds n 1 (1 + n) (n + 25) 25 s.no_of_ports (unlocked s 0) refl refl (omega arith)
      ∙ share_rounds-step e 24 (echo (1 + n) s.no_of_ports) (unlocked s1 0) nodes (unlocked s1 0)
          (echo_last e (1 + n) s.no_of_ports (unlocked s1 0) (omega arith))
      ∙ share_rounds-step e 23 nodes (unlocked s1 0) waiting (unlocked s2 0)
          (nodes_step e s1 0 replys_whole replys_start)
      ∙ wait_rounds 21 0 21 23 2 s2 refl refl (omega arith)
      ∙ share_rounds-step e 1 waiting (unlocked s2 21) showing (unlocked s2 21) (wait_last e s2)
      ∙ share_rounds-step e 0 showing (unlocked s2 21) begin _
          (showing_step e s2 21 links_whole links_start replys_whole refl)
