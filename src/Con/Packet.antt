-- ===== src/Con/Packet.antt =====
-- What `action_packout` does with a frame that the switch sends up: all its branches.
use daim.Prelude.{
  arith, ℕ, ◌+◌, ◌≡◌, ◌⊎◌, refl, sym, ap, ◌∙◌, inl, inr, false, List, ◌==◌, if◌then◌else◌,
  Bool-cases,
}
use daim.Wire.Order.{htons}
use daim.Wire.Ofp.{arp_data, ip_data, ip6_data, lldp_data}
use daim.Table.Ops.{granted}
use daim.Con.State.{
  Env, State, SwitchHost, Count, error, bytes_done, Ret, ret_neg1, no_return, Run, ok, undefined,
  deadlock, exited, out_of_fuel, Ends, and_then,
}
use daim.Con.PacketIn.{PacketIn, body, packet_in, arp_rule, ip_rule, ports_rule}
use daim.Con.Branches.{ip6_branch, frame_branch, last_ret, last_test, action_packout}
use daim.Con.Hosts.{host_of}
use daim.Con.Sending.{flood_lem}
use daim.Con.Forwarding.{
  Decision, ignore, flood_all, Handled, decide_arp, decide_ip, arp_hosts, arp_branch-Handled,
  ip_branch-Handled,
}

-- The decision on a frame that is no LLDP frame, and the host table after it.
abbrev pub decide : State → PacketIn → Decision
decide s p =
    if p.eth_type == ip6_data
    then (if s.cbench then flood_all else ignore)
    else if p.eth_type == arp_data
    then decide_arp s p (arp_hosts s p)
    else if p.eth_type == ip_data
    then decide_ip s p (s.read_buffer (body p + 9)) (host_of p.dst s.hosts.items)
    else ignore

abbrev pub hosts_after : State → PacketIn → List SwitchHost
hosts_after s p =
    if p.eth_type == ip6_data
    then s.hosts.items
    else if p.eth_type == arp_data
    then arp_hosts s p
    else s.hosts.items

-- A run that is followed by the last test of the function.
pub after_frame :
    (P Q : State → Type 0)
    → ((s' : State) → P s' → Q s')
    → (run : Run (Unit {0})) → Ends (λ _ s'. P s') run
    → Ends (λ r s'. (r ≡ last_test s') × Q s') (and_then run (λ _ s'. ok (last_test s') s'))
after_frame P Q weaken (ok u s) h = (refl, weaken s h)
after_frame P Q weaken undefined h = elim h [ ]
after_frame P Q weaken deadlock h = elim h [ ]
after_frame P Q weaken (exited s) h = elim h [ ]
after_frame P Q weaken out_of_fuel h = elim h [ ]

-- The transaction id does not matter to what becomes of a frame.
pub Handled-xid :
    (e : Env) (p : PacketIn) (d : Decision) (hosts : List SwitchHost) (s : State) (xid : ℕ)
    (s' : State)
    → Handled e p d hosts (record s { transaction_id = xid }) s'
    → Handled e p d hosts s s'
Handled-xid e p d hosts s xid s' h = record {
  messages = h.messages;
  written = h.written;
  items = h.items;
  whole = h.whole;
  ports_same = h.ports_same;
  links_same = h.links_same;
  replys_same = h.replys_same;
  mutex_same = h.mutex_same;
  buffer_same = h.buffer_same;
}

last_test-after :
    (run : Run (Unit {0})) (r : Ret) (s' : State)
    → and_then run (λ _ s1. ok (last_test s1) s1) ≡ ok r s'
    → r ≡ last_test s'
last_test-after (ok u s1) r s' ran =
    let same : s1 ≡ s' = cc in let here : last_test s1 ≡ r = cc in sym here ∙ ap last_test same
last_test-after undefined r s' ran = let no : ⊥ = cc in elim no [ ]
last_test-after deadlock r s' ran = let no : ⊥ = cc in elim no [ ]
last_test-after (exited s1) r s' ran = let no : ⊥ = cc in elim no [ ]
last_test-after out_of_fuel r s' ran = let no : ⊥ = cc in elim no [ ]

Count-cases : (c : Count) → (c ≡ error) ⊎ ((n : ℕ) × (c ≡ bytes_done n))
Count-cases error = inl refl
Count-cases (bytes_done n) = inr (n, refl)

module _ (e : Env) where
  pub unchanged-Handled :
      (p : PacketIn) (s : State) → s.hosts.broken ≡ false → Handled e p ignore s.hosts.items s s
  unchanged-Handled p s whole = record {
    messages = refl;
    written = refl;
    items = refl;
    whole = whole;
    ports_same = refl;
    links_same = refl;
    replys_same = refl;
    mutex_same = refl;
    buffer_same = refl;
  }

  pub ip6_branch-Handled :
      (p : PacketIn) (s : State)
      → s.hosts.broken ≡ false
      → Ends
          (λ _ s'. Handled e p (if s.cbench then flood_all else ignore) s.hosts.items s s')
          (ip6_branch e p s)
  unfolding ip6_branch
  ip6_branch-Handled p s whole = elim (Bool-cases s.cbench) [
    | inl on ↦
        simp (on, flood_lem)
          (record {
            messages = refl;
            written = refl;
            items = refl;
            whole = whole;
            ports_same = refl;
            links_same = refl;
            replys_same = refl;
            mutex_same = refl;
            buffer_same = refl;
          })
    | inr off ↦ simp off (unchanged-Handled p s whole)
  ]

  pub frame_branch-Handled :
      (p : PacketIn) (s : State)
      → ((k : ℕ) → e.grant k ≡ granted)
      → s.hosts.broken ≡ false
      → (p.eth_type == lldp_data) ≡ false
      → Ends (λ _ s'. Handled e p (decide s p) (hosts_after s p) s s') (frame_branch e p s)
  unfolding frame_branch
  frame_branch-Handled p s grants whole not_lldp = elim (Bool-cases (p.eth_type == ip6_data)) [
    | inl a ↦ simp a (ip6_branch-Handled p s whole)
    | inr a ↦ elim (Bool-cases (p.eth_type == arp_data)) [
      | inl b ↦ simp (a, b) (arp_branch-Handled e p s grants whole)
      | inr b ↦ elim (Bool-cases (p.eth_type == ip_data)) [
        | inl c ↦ simp (a, b, c) (ip_branch-Handled e p s whole)
        | inr c ↦ simp (a, b, c, not_lldp) (unchanged-Handled p s whole)
      ]
    ]
  ]

  -- Where every allocation is granted and the host table is whole, `action_packout` comes to its end
  -- on every frame that is not LLDP, and does what `decide` says: an IPv6 frame is flooded for cbench
  -- only; an ARP frame enters its sender into the host table and is then flooded if it is a
  -- broadcast; a unicast ARP frame, and an ICMP, TCP or UDP packet, is answered by a flow rule
  -- towards the port of the host with its destination address, if that host is known and its port is
  -- not 0, and else by nothing; an IP packet of the protocol 255 is flooded; all else is ignored. The
  -- message is in the wire format, the other tables, the mutex and the buffer stay, and the function
  -- returns -1 only by its last test.
  pub action_packout-Handled :
      (of_buffer : ℕ) (s : State)
      → ((k : ℕ) → e.grant k ≡ granted)
      → s.hosts.broken ≡ false
      → ((packet_in s of_buffer).eth_type == lldp_data) ≡ false
      → Ends
          (λ r s'.
            (r ≡ last_test s')
            × Handled e
                (packet_in s of_buffer)
                (decide s (packet_in s of_buffer))
                (hosts_after s (packet_in s of_buffer))
                s
                s')
          (action_packout e of_buffer s)
  unfolding action_packout arp_rule ip_rule ports_rule
  action_packout-Handled of_buffer s grants whole not_lldp =
      let p : PacketIn = packet_in s of_buffer in
      let s1 : State = record s { transaction_id = p.xid } in
      after_frame _ _ (λ s'. Handled-xid e p (decide s p) (hosts_after s p) s p.xid s')
        (frame_branch e p s1) (frame_branch-Handled p s1 grants whole not_lldp)

  -- `action_packout` never returns 0: where it comes to an end, it has returned -1, after a last
  -- `send` that failed, or it has run off its end with no `return`.
  pub action_packout-returned :
      (of_buffer : ℕ) (s s' : State) (r : Ret)
      → action_packout e of_buffer s ≡ ok r s'
      → (r ≡ ret_neg1) × (s'.write_buffer_len ≡ error) ⊎ (r ≡ no_return)
  unfolding action_packout
  action_packout-returned of_buffer s s' r ran =
      let here : r ≡ last_test s' = last_test-after _ r s' ran in
      elim (Count-cases s'.write_buffer_len) [
        | inl fails ↦ inl (here ∙ ap last_ret fails, fails)
        | inr (n, works) ↦ inr (here ∙ ap last_ret works)
      ]

-- The protocol field of the rule for an ARP packet is 0, whatever the operation of the packet: the
-- operation is given in network byte order to a parameter of 8 bits, which keeps its high byte.
pub arp_rule-nw_proto : (s : State) (p : PacketIn) → (arp_rule s p).nw_proto ≡ 0
unfolding arp_rule htons
arp_rule-nw_proto s p = omega arith
