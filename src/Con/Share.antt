-- ===== src/Con/Share.antt =====
-- `node_share_func`: the thread that finds out what the ports of the switch are connected to.
use daim.Prelude.{ℕ, zero, suc, ◌+◌, false, Option, none, some, length, ltb, leb, if◌then◌else◌}
use daim.Wire.Order.{htons, htobe64, ntohs}
use daim.Wire.Buffer.{get16}
use daim.Wire.Ofp.{anim_echo_request}
use daim.Wire.Anim.{echo_buffer, node_buffer}
use daim.Table.Ops
use daim.Table.Ops.{Table, list_rewind, free_list}
use daim.Table.Loops.{find_object}
use daim.Con.State.{
  Env, State, SwitchReply, SwitchLink, ok, undefined, out_of_fuel, M, pure, ◌>>◌, defined, lock,
  unlock, send_buffer,
}
use daim.Con.Features.{rounds}

-- Where the thread stands: at the label `send_anim`, in the loop over the ports, before the loop over
-- the replies, in the loop that waits, or before it shows and frees the links.
pub data ThreadPc : Type 0 where
  begin : ThreadPc
  echo : (portno ports_count : ℕ) → ThreadPc
  nodes waiting showing : ThreadPc

module _ (e : Env) where
  unfoldable pub send_echo_request : (portno : ℕ) → State → State
  send_echo_request portno s =
      let b = echo_buffer anim_echo_request (htons portno) in send_buffer e b (ntohs (get16 b 2)) s

  unfoldable pub send_node : SwitchReply → State → State
  send_node r s =
      let b = node_buffer (htobe64 s.switch_id) (htons r.port_no) in
      send_buffer e b (ntohs (get16 b 2)) s

  -- `p = sw_replys.get_object (); while (p != NULL) { ...; p = sw_replys.get_object (); }`.
  unfoldable pub node_loop : (fuel : ℕ) → M (Unit {0})
  node_loop zero s = out_of_fuel
  node_loop (suc fuel) s = elim (Ops.get_object s.sw_replys) [
    | none ↦ undefined
    | some (none, t) ↦ ok tt (record s { sw_replys = t })
    | some (some r, t) ↦ node_loop fuel (send_node r (record s { sw_replys = t }))
  ]

  unfoldable pub share_nodes : M ThreadPc
  share_nodes = do
    lock
    λ s. node_loop (length s.sw_replys.items + 1) s
    λ s. ok tt (record s { sw_replys = list_rewind s.sw_replys })
    unlock
    pure waiting

  -- The loop over the links only prints them.
  unfoldable pub show_links : M (Option SwitchLink)
  show_links s = defined (find_object (λ _. false) s.links) λ t. record s { links = list_rewind t }

  unfoldable pub share_links : M ThreadPc
  share_links = do
    lock
    show_links
    λ s. ok tt (record s { sw_replys = free_list s.sw_replys; links = free_list s.links })
    unlock
    pure begin

  -- One round of a loop, or one part under the mutex. The test `portno < (ports_count + 1)` is that of
  -- an `int`, so that a negative count has no rounds.
  unfoldable pub share : ThreadPc → M ThreadPc
  share begin = do
    lock
    λ s. (unlock >> pure (echo 1 s.no_of_ports)) (record s { anim_node_counter = 0 })
  share (echo portno ports_count) = λ s.
      if leb portno (rounds ports_count)
      then ok (echo (portno + 1) ports_count) (send_echo_request portno s)
      else ok nodes s
  share nodes = share_nodes
  share waiting = do
    lock
    λ s.
        if ltb 20 s.anim_node_counter
        then (unlock >> pure showing) s
        else (unlock >> pure waiting) (record s { anim_node_counter = s.anim_node_counter + 1 })
  share showing = share_links
