-- ===== src/Con/Learning.antt =====
-- The host table as a map from addresses: what learning a host changes.
use daim.Prelude.{
  ℕ, ◌≡◌, ◌↔◌, refl, inl, inr, true, false, Option, none, some, List, [], ◌∷◌, ◌++◌, arith, sym,
  ◌∙◌, if◌then◌else◌, Bool-cases, Option-cases,
}
use mathlib.Core.Path.{subst}
use daim.Wire.Buffer.{Mac}
use daim.Table.Loops.{found}
use daim.Table.Ops.{granted}
use daim.Con.State.{Env, State, SwitchHost, Ends}
use daim.Con.PacketIn.{PacketIn, same_mac}
use daim.Con.Branches.{learn}
use daim.Con.Hosts.{host_of, learned, sender, learn_lem}

pub same_mac_iff : (a b : Mac) → (same_mac a b ≡ true) ↔ (a ≡ b)
unfolding same_mac
same_mac_iff a b = ground arith

-- No two hosts have one address.
abbrev pub Distinct : List SwitchHost → Type 0
Distinct [] = Unit {0}
Distinct (h ∷ hs) = (host_of h.mac_addr hs ≡ none) × Distinct hs

abbrev pub or_else : Option SwitchHost → Option SwitchHost → Option SwitchHost
or_else none other = other
or_else (some h) other = some h

host_of-append :
    (mac : Mac) (hs : List SwitchHost) (h : SwitchHost)
    → host_of mac (hs ++ h ∷ [])
      ≡ or_else (host_of mac hs) (if same_mac h.mac_addr mac then some h else none)
unfolding found
host_of-append mac [] h = refl
host_of-append mac (k ∷ ks) h = elim (Bool-cases (same_mac k.mac_addr mac)) [
  | inl e ↦ simp e
  | inr e ↦ simp (e, host_of-append mac ks h)
]

or_else-none : (o : Option SwitchHost) → or_else o none ≡ o
or_else-none none = refl
or_else-none (some h) = refl

same_mac_symm : (a b : Mac) → same_mac a b ≡ false → same_mac b a ≡ false
same_mac_symm a b e = elim (Bool-cases (same_mac b a)) [
  | inl same ↦ let e' = (same_mac_iff a b).1 (sym ((same_mac_iff b a).0 same)) in cc
  | inr other ↦ other
]

-- What a search of a longer table that finds nothing says of its parts.
host_of-cons_none :
    (mac : Mac) (k : SwitchHost) (ks : List SwitchHost)
    → host_of mac (k ∷ ks) ≡ none
    → (same_mac k.mac_addr mac ≡ false) × (host_of mac ks ≡ none)
unfolding found
host_of-cons_none mac k ks e = elim (Bool-cases (same_mac k.mac_addr mac)) [
  | inl same ↦ cc
  | inr other ↦ (other, simp other at e)
]

learned_known :
    (mac : Mac) (hosts : List SwitchHost) (h k : SwitchHost)
    → host_of h.mac_addr hosts ≡ some k
    → host_of mac hosts
      ≡ or_else (host_of mac hosts) (if same_mac h.mac_addr mac then some h else none)
learned_known mac hosts h k old = elim (Bool-cases (same_mac h.mac_addr mac)) [
  | inl same ↦
      let at : h.mac_addr ≡ mac = (same_mac_iff h.mac_addr mac).0 same in
      let here : host_of mac hosts ≡ some k = subst (λ m. host_of m hosts ≡ some k) at old in
      rw here
  | inr other ↦ rw other (sym (or_else-none (host_of mac hosts)))
]

-- A host that is learned is found by its address afterwards; the host that is found by any other
-- address stays the same, and so does an entry that was there.
pub host_of-learned :
    (mac : Mac) (hosts : List SwitchHost) (h : SwitchHost)
    → host_of mac (learned hosts h)
      ≡ or_else (host_of mac hosts) (if same_mac h.mac_addr mac then some h else none)
host_of-learned mac hosts h = elim (Option-cases (host_of h.mac_addr hosts)) [
  | inl new ↦ rw new (host_of-append mac hosts h)
  | inr (k, old) ↦ rw old (learned_known mac hosts h k old)
]

Distinct-append :
    (hs : List SwitchHost) (h : SwitchHost)
    → host_of h.mac_addr hs ≡ none
    → Distinct hs
    → Distinct (hs ++ h ∷ [])
Distinct-append [] h new d = (new, tt)
Distinct-append (k ∷ ks) h new d =
    let (other, rest) = host_of-cons_none h.mac_addr k ks new in
    (
      host_of-append k.mac_addr ks h ∙ rw (d.0, same_mac_symm k.mac_addr h.mac_addr other) refl,
      Distinct-append ks h rest d.1,
    )

-- Learning keeps the addresses of the table distinct.
pub learned-Distinct :
    (hosts : List SwitchHost) (h : SwitchHost) → Distinct hosts → Distinct (learned hosts h)
learned-Distinct hosts h d = elim (Option-cases (host_of h.mac_addr hosts)) [
  | inl new ↦ rw new (Distinct-append hosts h new d)
  | inr (k, old) ↦ rw old d
]

-- Where every allocation is granted and the host table is whole, the first half of the ARP branch
-- ends; afterwards every address that had an entry has the same one, the source address of the packet
-- has one (with the port that the packet came in by, if it is new), and no other address has got
-- one; and the addresses of the table stay distinct.
pub learn-host_of :
    (e : Env) (p : PacketIn) (ip_src : ℕ) (s : State)
    → ((k : ℕ) → e.grant k ≡ granted)
    → s.hosts.broken ≡ false
    → Distinct s.hosts.items
    → Ends
        (λ _ s'.
          ((mac : Mac)
            → host_of mac s'.hosts.items
              ≡ or_else
                  (host_of mac s.hosts.items)
                  (if same_mac p.src mac then some (sender s p ip_src) else none))
          × Distinct s'.hosts.items)
        (learn e p ip_src s)
learn-host_of e p ip_src s grants whole distinct =
    let (o, c, a, ran) = learn_lem e p ip_src s grants whole in
    simp ran (
      (λ mac. host_of-learned mac s.hosts.items (sender s p ip_src)),
      learned-Distinct s.hosts.items (sender s p ip_src) distinct,
    )
