-- ===== src/Con/Managed.antt =====
-- `action_packout` where `add_object` may fail: what stays of the tables.
use daim.Prelude.{ℕ, ◌+◌, ◌≡◌, ◌⊎◌, refl, ◌∙◌, inl, inr, true, false, List, ◌==◌, Bool-cases}
use daim.Wire.Order.{ntohl}
use daim.Wire.Buffer.{get32}
use daim.Wire.Ofp.{
  arp_data, ip_data, ip6_data, lldp_data, anim_echo_request, anim_echo_reply, anim_node,
}
use daim.Con.State.{Env, State, SwitchHost, Run, Ends}
use daim.Con.PacketIn.{PacketIn, body, packet_in, same_mac, broadcast, arp_rule, link_of}
use daim.Con.Branches.{
  add_reply, add_link, anim_message, arp_branch, ip_branch, ip6_branch, lldp_branch, frame_branch,
  last_test, action_packout,
}
use daim.Con.Hosts.{host_of, with_hosts, find_host_lem, sender, learned}
use daim.Con.Learning.{Distinct, learned-Distinct}
use daim.Con.Sending.{flood_lem, send_echo_lem}
use daim.Con.Ends.{Ends-weaken}
use daim.Con.Forwarding.{
  Decision, ignore, flood_all, route, Handled, forward-route, carried_out-Handled,
  ip_branch-Handled,
}
use daim.Con.Packet.{after_frame, Handled-xid, unchanged-Handled, ip6_branch-Handled}
use daim.Con.Lldp.{lldp_frame}
use daim.Con.Invariant.{Sound, Kept, Handled-Kept}
use daim.Con.Spared.{Spared, add_object-spared, learn-spared}

-- A frame has been handled by some decision, with distinct addresses in the host table.
abbrev pub Managed : Env → PacketIn → State → State → Type 0
Managed e p s s' =
    (d : Decision) × (hosts : List SwitchHost) × Handled e p d hosts s s' × Distinct hosts

-- An LLDP frame has been handled: the tables of links and replies are whole, with their cursors.
pub record Noted (s s' : State) : Type 0 where
  pub replys_whole : s'.sw_replys.broken ≡ false
  pub links_whole : s'.links.broken ≡ false
  pub links_cursor : s'.links.cursor ≡ s.links.cursor
  pub replys_cursor : s'.sw_replys.cursor ≡ s.sw_replys.cursor
  pub hosts_same : s'.hosts ≡ s.hosts
  pub ports_same : s'.ports ≡ s.ports
  pub buffer_same : s'.read_buffer ≡ s.read_buffer
  pub unlocked : s'.links_mutex ≡ false

pub Managed-Kept : (e : Env) (p : PacketIn) (s s' : State) → Sound s → Managed e p s s' → Kept s s'
Managed-Kept e p s s' sound (d, hosts, h, distinct) = Handled-Kept e p d hosts s s' sound distinct h

pub Noted-Kept : (s s' : State) → Sound s → Noted s s' → Kept s s'
Noted-Kept s s' sound h = (
  record {
    hosts_whole = rw (h.hosts_same) sound.hosts_whole;
    ports_whole = rw (h.ports_same) sound.ports_whole;
    ports_start = rw (h.ports_same) sound.ports_start;
    links_whole = h.links_whole;
    replys_whole = h.replys_whole;
    links_start = h.links_cursor ∙ sound.links_start;
    replys_start = h.replys_cursor ∙ sound.replys_start;
    distinct = rw (h.hosts_same) sound.distinct;
  },
  h.buffer_same,
)

pub learned_or_not :
    (old hosts : List SwitchHost) (h : SwitchHost)
    → (hosts ≡ learned old h) ⊎ (hosts ≡ old)
    → Distinct old
    → Distinct hosts
learned_or_not old hosts h (inl e) d = rw e (learned-Distinct old h d)
learned_or_not old hosts h (inr e) d = rw e d

pub same_hosts :
    (e : Env) (p : PacketIn) (d : Decision) (s : State)
    → Distinct s.hosts.items
    → (run : Run (Unit {0})) → Ends (λ _ s'. Handled e p d s.hosts.items s s') run
    → Ends (λ _ s'. Managed e p s s') run
same_hosts e p d s distinct run h =
    Ends-weaken (λ (_ : Unit {0}) s'. Handled e p d s.hosts.items s s')
      (λ (_ : Unit {0}) s'. Managed e p s s') (λ _ s' h'. (d, s.hosts.items, h', distinct)) run h

module _ (e : Env) (spared : Spared e) where
  arp_branch-Managed :
      (p : PacketIn) (s : State)
      → s.hosts.broken ≡ false
      → Distinct s.hosts.items
      → Ends (λ _ s'. Managed e p s s') (arp_branch e p s)
  unfolding arp_branch arp_rule
  arp_branch-Managed p s whole distinct =
      let ip : ℕ = ntohl (get32 s.read_buffer (body p + 14)) in
      let (o, hosts, c, a, ran, which) = learn-spared e spared p ip s whole in
      let d = learned_or_not s.hosts.items hosts (sender s p ip) which distinct in
      elim (Bool-cases (same_mac p.dst broadcast)) [
        | inl all ↦
            simp (ran, all, flood_lem)
              (flood_all, hosts, carried_out-Handled e p flood_all s hosts c a, d)
        | inr one ↦
            let (c', ran', _) = find_host_lem p.dst (with_hosts s hosts c a) refl in
            let r : Decision = route (arp_rule s p) (host_of p.dst hosts) in
            simp (ran, one, ran', forward-route)
              (r, hosts, carried_out-Handled e p r s hosts c' a, d)
      ]

  frame_branch-Managed :
      (p : PacketIn) (s : State)
      → s.hosts.broken ≡ false
      → Distinct s.hosts.items
      → (p.eth_type == lldp_data) ≡ false
      → Ends (λ _ s'. Managed e p s s') (frame_branch e p s)
  unfolding frame_branch
  frame_branch-Managed p s whole distinct not_lldp = elim (Bool-cases (p.eth_type == ip6_data)) [
    | inl a ↦
        simp a (same_hosts e p _ s distinct (ip6_branch e p s) (ip6_branch-Handled e p s whole))
    | inr a ↦ elim (Bool-cases (p.eth_type == arp_data)) [
      | inl b ↦ simp (a, b) (arp_branch-Managed p s whole distinct)
      | inr b ↦ elim (Bool-cases (p.eth_type == ip_data)) [
        | inl c ↦
            simp (a, b, c)
              (same_hosts e p _ s distinct (ip_branch e p s) (ip_branch-Handled e p s whole))
        | inr c ↦
            simp (a, b, c, not_lldp)
              (ignore, s.hosts.items, unchanged-Handled e p s whole, distinct)
      ]
    ]
  ]

  pub action_packout-Managed :
      (of_buffer : ℕ) (s : State)
      → s.hosts.broken ≡ false
      → Distinct s.hosts.items
      → ((packet_in s of_buffer).eth_type == lldp_data) ≡ false
      → Ends
          (λ r s'. (r ≡ last_test s') × Managed e (packet_in s of_buffer) s s')
          (action_packout e of_buffer s)
  unfolding action_packout
  action_packout-Managed of_buffer s whole distinct not_lldp =
      let p : PacketIn = packet_in s of_buffer in
      let s1 : State = record s { transaction_id = p.xid } in
      after_frame (Managed e p s1) (Managed e p s)
        (λ s' (d, hosts, h, distinct'). (d, hosts, Handled-xid e p d hosts s p.xid s' h, distinct'))
        (frame_branch e p s1) (frame_branch-Managed p s1 whole distinct not_lldp)

  lldp_branch-Noted :
      (p : PacketIn) (s : State)
      → s.links_mutex ≡ false
      → s.sw_replys.broken ≡ false
      → s.links.broken ≡ false
      → Ends (λ _ s'. Noted s s') (lldp_branch e p s)
  unfolding lldp_branch anim_message add_reply add_link
  lldp_branch-Noted p s free replys_ok links_ok =
      let k : ℕ = s.read_buffer (body p) in
      elim (Bool-cases (k == anim_echo_request)) [
        | inl a ↦
            simp (free, a, send_echo_lem)
              (record {
                replys_whole = replys_ok;
                links_whole = links_ok;
                links_cursor = refl;
                replys_cursor = refl;
                hosts_same = refl;
                ports_same = refl;
                buffer_same = refl;
                unlocked = refl;
              })
        | inr a ↦ elim (Bool-cases (k == anim_echo_reply)) [
          | inl b ↦
              let (got, xs, ran, _) =
                add_object-spared (e.grant s.allocations)
                  (record { port_no = p.in_port; rec = true }) s.sw_replys (spared s.allocations)
                  replys_ok in
              simp (free, a, b, ran)
                (record {
                  replys_whole = refl;
                  links_whole = links_ok;
                  links_cursor = refl;
                  replys_cursor = refl;
                  hosts_same = refl;
                  ports_same = refl;
                  buffer_same = refl;
                  unlocked = refl;
                })
          | inr b ↦ elim (Bool-cases (k == anim_node)) [
            | inl c ↦
                let s1 : State = record s { links_mutex = true } in
                let (got, xs, ran, _) =
                  add_object-spared (e.grant s.allocations) (link_of s1 p) s.links
                    (spared s.allocations) links_ok in
                simp (free, a, b, c, ran)
                  (record {
                    replys_whole = replys_ok;
                    links_whole = refl;
                    links_cursor = refl;
                    replys_cursor = refl;
                    hosts_same = refl;
                    ports_same = refl;
                    buffer_same = refl;
                    unlocked = refl;
                  })
            | inr c ↦
                simp (free, a, b, c)
                  (record {
                    replys_whole = replys_ok;
                    links_whole = links_ok;
                    links_cursor = refl;
                    replys_cursor = refl;
                    hosts_same = refl;
                    ports_same = refl;
                    buffer_same = refl;
                    unlocked = refl;
                  })
          ]
        ]
      ]

  pub action_packout-Noted :
      (of_buffer : ℕ) (s : State)
      → ((packet_in s of_buffer).eth_type == lldp_data) ≡ true
      → s.links_mutex ≡ false
      → s.sw_replys.broken ≡ false
      → s.links.broken ≡ false
      → Ends (λ r s'. (r ≡ last_test s') × Noted s s') (action_packout e of_buffer s)
  unfolding action_packout
  action_packout-Noted of_buffer s lldp free replys_ok links_ok =
      let p : PacketIn = packet_in s of_buffer in
      let s1 : State = record s { transaction_id = p.xid } in
      after_frame (Noted s1) (Noted s)
        (λ s' h. record {
          replys_whole = h.replys_whole;
          links_whole = h.links_whole;
          links_cursor = h.links_cursor;
          replys_cursor = h.replys_cursor;
          hosts_same = h.hosts_same;
          ports_same = h.ports_same;
          buffer_same = h.buffer_same;
          unlocked = h.unlocked;
        })
        (frame_branch e p s1)
        (rw (lldp_frame e p s1 lldp) (lldp_branch-Noted p s1 free replys_ok links_ok))
