-- ===== src/Ani1/Agrees.antt =====
-- Where `action_packout` of ANIv1/main.cpp and of ANIv41/_con.cpp do the same.
use daim.Prelude.{
  ℕ, ◌+◌, ◌≡◌, ◌≢◌, refl, sym, ◌∙◌, ap, inl, inr, false, Option, List, ◌++◌, ◌==◌, Bool-cases,
}
use daim.Wire.Ofp.{arp_data, ip_data, ip6_data, lldp_data, ip_type_icmp, ip_type_tcp, ip_type_udp}
use daim.Wire.Rule.{Match}
use daim.Table.Ops.{granted}
use daim.Con.State.{
  Env, State, SwitchHost, Ret, Run, ok, undefined, deadlock, exited, out_of_fuel, Ends,
}
use daim.Con.PacketIn.{PacketIn, body, packet_in, out_port_of}
use daim.Con.Branches.{last_test, last_ret}
use daim.Con.Branches
use daim.Con.Hosts.{host_of}
use daim.Con.Forwarding.{Decision, ignore, route, decide_ip, Handled, message_of, length_of}
use daim.Con.Packet.{decide, hosts_after, action_packout-Handled}
use daim.Ani1.Handlers
use daim.Ani1.Packet.{rule_to, decision_ip, decision, action_packout-decision}

-- Two runs end, in states that this relates.
abbrev pub BothEnd : (Ret → State → Ret → State → Type 0) → Run Ret → Run Ret → Type 0
BothEnd R run run' = Ends (λ r s. Ends (λ r' s'. R r s r' s') run') run

both :
    (P Q : Ret → State → Type 0) (R : Ret → State → Ret → State → Type 0)
    → ((r : Ret) (s : State) (r' : Ret) (s' : State) → P r s → Q r' s' → R r s r' s')
    → (run run' : Run Ret) → Ends P run
    → Ends Q run'
    → BothEnd R run run'
both P Q R join (ok r s) (ok r' s') h k = join r s r' s' h k
both P Q R join (ok r s) undefined h k = elim k [ ]
both P Q R join (ok r s) deadlock h k = elim k [ ]
both P Q R join (ok r s) (exited s') h k = elim k [ ]
both P Q R join (ok r s) out_of_fuel h k = elim k [ ]
both P Q R join undefined run' h k = elim h [ ]
both P Q R join deadlock run' h k = elim h [ ]
both P Q R join (exited s) run' h k = elim h [ ]
both P Q R join out_of_fuel run' h k = elim h [ ]

-- Both versions return the same, have sent the same, and have the same hosts.
pub record Alike (r : Ret) (s : State) (r' : Ret) (s' : State) : Type 0 where
  pub returns : r ≡ r'
  pub messages : s.sent ≡ s'.sent
  pub hosts : s.hosts.items ≡ s'.hosts.items

-- An IP packet or an IPv6 frame that version 4.1 does not leave alone.
route-rule_to :
    (m : Match) (host : Option SwitchHost) → route m host ≢ ignore → rule_to m host ≡ route m host
route-rule_to m host sent = elim (Bool-cases (out_port_of host == 0)) [
  | inl z ↦ let no : ⊥ = sent (rw z refl) in elim no [ ]
  | inr nz ↦ rw nz refl
]

decide_ip-agrees :
    (s : State) (p : PacketIn) (proto : ℕ) (host : Option SwitchHost)
    → decide_ip s p proto host ≢ ignore
    → decision_ip s p proto host ≡ decide_ip s p proto host
decide_ip-agrees s p proto host acts = elim (Bool-cases (proto == ip_type_icmp)) [
  | inl x ↦ rw x (route-rule_to _ host (λ i. acts (rw x i)))
  | inr x ↦ elim (Bool-cases (proto == ip_type_tcp)) [
    | inl y ↦ rw (x, y) (route-rule_to _ host (λ i. acts (rw (x, y) i)))
    | inr y ↦ elim (Bool-cases (proto == ip_type_udp)) [
      | inl z ↦ rw (x, y, z) (route-rule_to _ host (λ i. acts (rw (x, y, z) i)))
      | inr z ↦ rw (x, y, z) refl
    ]
  ]
]

decide-agrees :
    (s : State) (p : PacketIn)
    → (p.eth_type == arp_data) ≡ false
    → decide s p ≢ ignore
    → decision s p ≡ decide s p
decide-agrees s p not_arp acts = elim (Bool-cases (p.eth_type == ip6_data)) [
  | inl x ↦ elim (Bool-cases s.cbench) [
    | inl on ↦ rw (x, on) refl
    | inr off ↦ let no : ⊥ = acts (rw (x, off) refl) in elim no [ ]
  ]
  | inr x ↦ elim (Bool-cases (p.eth_type == ip_data)) [
    | inl y ↦
        rw (x, not_arp, y)
          (decide_ip-agrees s p (s.read_buffer (body p + 9)) (host_of p.dst s.hosts.items)
            (λ i. acts (rw (x, not_arp, y) i)))
    | inr y ↦ rw (x, not_arp, y) refl
  ]
]

module _ (e : Env) (p : PacketIn) (s : State) where
  Handled-Alike :
      (d d' : Decision) (hosts : List SwitchHost) (r r' : Ret) (s1 s2 : State)
      → d ≡ d'
      → (r ≡ last_test s1) × Handled e p d hosts s s1
      → (r' ≡ last_test s2) × Handled e p d' hosts s s2
      → Alike r s1 r' s2
  Handled-Alike d d' hosts r r' s1 s2 same (here, h) (there, k) =
      let written : s1.write_buffer_len ≡ s2.write_buffer_len =
        h.written
        ∙ ap (λ (x : Decision). length_of e x (message_of p x ++ s.sent) s.write_buffer_len) same
        ∙ sym k.written in
      record {
        returns = here ∙ ap last_ret written ∙ sym there;
        messages =
            h.messages ∙ ap (λ (x : Decision). message_of p x ++ s.sent) same ∙ sym k.messages;
        hosts = h.items ∙ sym k.items;
      }

module _ (e : Env) where
  -- Where version 4.1 sends something for a frame that is neither ARP nor LLDP, version 1 does the same:
  -- with every allocation granted and a whole host table both versions of `action_packout` come to
  -- their end, and return the same, send the same bytes and have the same hosts afterwards.
  pub action_packout-Alike :
      (of_buffer : ℕ) (s : State)
      → ((k : ℕ) → e.grant k ≡ granted)
      → s.hosts.broken ≡ false
      → ((packet_in s of_buffer).eth_type == lldp_data) ≡ false
      → ((packet_in s of_buffer).eth_type == arp_data) ≡ false
      → decide s (packet_in s of_buffer) ≢ ignore
      → BothEnd Alike
          (Handlers.action_packout e of_buffer s)
          (Branches.action_packout e of_buffer s)
  action_packout-Alike of_buffer s grants whole not_lldp not_arp acts =
      let p : PacketIn = packet_in s of_buffer in
      both _ _ Alike
        (λ r s1 r' s2 h k.
          Handled-Alike e p s _ _ (hosts_after s p) r r' s1 s2 (decide-agrees s p not_arp acts) h k)
        _ _ (action_packout-decision e of_buffer s grants whole)
        (action_packout-Handled e of_buffer s grants whole not_lldp)
