-- ===== src/Linked/Splice.antt =====
-- A chain from which one cell has been taken out, its neighbours linked to one another.
use daim.Prelude.{◌≡◌, ◌≢◌, sym, ap, ◌∙◌, true, false, ◌||◌, none, some, List, [], ◌∷◌, ◌++◌, arith}
use daim.Linked.Heap.{Ptr, null, Node, Heap}
use daim.Linked.Chain.{
  Cell, has_object, has_chars, head_of, last_of, Chain, Chain-frame, last_of-mem, has_object-append,
  has_chars-append,
}

module _ {A : Type 0} where
  -- `g` is `h` without the cell `c`, whose neighbours are linked to one another.
  pub record Spliced (h g : Heap A) (prev next : Ptr) (c : Cell A) : Type 0 where
    pub node_gone : g.nodes c.object ≡ none
    pub chars_gone : g.payloads c.chars ≡ none
    pub forward :
        (n : Node)
        → prev ≢ null
        → h.nodes prev ≡ some n
        → g.nodes prev ≡ some (record n { next = next })
    pub backward :
        (n : Node)
        → next ≢ null
        → h.nodes next ≡ some n
        → g.nodes next ≡ some (record n { prev = prev })
    pub nodes_same : (a : Ptr) → a ≢ prev → a ≢ next → a ≢ c.object → g.nodes a ≡ h.nodes a
    pub payloads_same : (a : Ptr) → a ≢ c.chars → g.payloads a ≡ h.payloads a

  -- What it means for an address to lie outside a chain, part by part.
  pub record Outside (a : Ptr) (xs ys : List (Cell A)) (c : Cell A) : Type 0 where
    pub in_front : has_object a xs ≡ false
    pub behind : has_object a ys ≡ false
    pub other : a ≢ c.object
    pub without : has_object a (xs ++ ys) ≡ false

  pub has_object-Outside :
      (a : Ptr) (xs ys : List (Cell A)) (c : Cell A)
      → has_object a (xs ++ c ∷ ys) ≡ false
      → Outside a xs ys c
  has_object-Outside a xs ys c out =
      let parts : (has_object a xs || has_object a (c ∷ ys)) ≡ false =
        sym (has_object-append a xs (c ∷ ys)) ∙ out in
      record {
        in_front = ground arith;
        behind = ground arith;
        other = λ e. ground arith;
        without = has_object-append a xs ys ∙ ground arith;
      }

  pub ne_last_of :
      (a prev : Ptr) (y : Cell A) (zs : List (Cell A))
      → has_object a (y ∷ zs) ≡ false
      → a ≢ last_of prev (y ∷ zs)
  ne_last_of a prev y zs out e =
      let on : has_object a (y ∷ zs) ≡ true =
        ap (λ (b : Ptr). has_object b (y ∷ zs)) e ∙ last_of-mem prev y zs in
      absurd cc

  pub ne_head_of :
      (a : Ptr) (ys : List (Cell A)) → a ≢ null → has_object a ys ≡ false → a ≢ head_of ys
  ne_head_of a [] ne out e = ne e
  ne_head_of a (d ∷ ds) ne out e = ground arith

  without_chars :
      (a : Ptr) (xs ys : List (Cell A)) (c : Cell A)
      → has_chars a (xs ++ c ∷ ys) ≡ false
      → (a ≢ c.chars) × (has_chars a (xs ++ ys) ≡ false)
  without_chars a xs ys c out =
      let parts : (has_chars a xs || has_chars a (c ∷ ys)) ≡ false =
        sym (has_chars-append a xs (c ∷ ys)) ∙ out in
      ((λ e. ground arith), has_chars-append a xs ys ∙ ground arith)

  pub Chain-splice :
      {h g : Heap A} (prev : Ptr) (xs ys : List (Cell A)) (c : Cell A)
      → Spliced h g (last_of prev xs) (head_of ys) c
      → has_object prev (xs ++ c ∷ ys) ≡ false
      → Chain h prev (xs ++ c ∷ ys)
      → Chain g prev (xs ++ ys)
  Chain-splice prev [] [] c spliced apart ch = tt
  Chain-splice prev [] (d ∷ ds) c spliced apart (held, out, pout, (held', out', pout', ch)) = (
    record {
      object_ne = held'.object_ne;
      chars_ne = held'.chars_ne;
      node_at = spliced.backward _ held'.object_ne held'.node_at;
      value_at = spliced.payloads_same d.chars (ground arith) ∙ held'.value_at;
    },
    out',
    pout',
    Chain-frame d.object ds
        (λ a i. spliced.nodes_same a (λ e. ground (arith, apart, e)) (ground arith) (ground arith))
        (λ a i. spliced.payloads_same a (ground arith)) ch,
  )
  Chain-splice prev (x ∷ []) ys c spliced apart (held, out, pout, ch) = (
    record {
      object_ne = held.object_ne;
      chars_ne = held.chars_ne;
      node_at = spliced.forward _ held.object_ne held.node_at;
      value_at = spliced.payloads_same x.chars (ground arith) ∙ held.value_at;
    },
    ground arith,
    ground arith,
    Chain-splice x.object [] ys c spliced out ch,
  )
  Chain-splice prev (x ∷ y ∷ zs) ys c spliced apart (held, out, pout, ch) =
      let apart' = has_object-Outside x.object (y ∷ zs) ys c out in
      let (other, without) = without_chars x.chars (y ∷ zs) ys c pout in
      (
        record {
          object_ne = held.object_ne;
          chars_ne = held.chars_ne;
          node_at =
              spliced.nodes_same x.object (ne_last_of x.object x.object y zs apart'.in_front)
                (ne_head_of x.object ys held.object_ne apart'.behind) apart'.other
              ∙ held.node_at;
          value_at = spliced.payloads_same x.chars other ∙ held.value_at;
        },
        apart'.without,
        without,
        Chain-splice x.object (y ∷ zs) ys c spliced out ch,
      )
