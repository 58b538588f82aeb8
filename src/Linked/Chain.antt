-- ===== src/Linked/Chain.antt =====
-- What an `object_list` stands for: the cells of a doubly linked chain, in order.
use daim.Prelude.{◌≡◌, ◌≢◌, refl, Bool, true, false, ◌||◌, some, List, [], ◌∷◌, ◌++◌, ◌==◌, arith}
use daim.Linked.Heap.{Ptr, null, node, Heap, load, load_payload}
use daim.Linked.Ops.{ObjectList}

-- A node, its payload buffer, and what that holds.
pub record Cell (A : Type 0) : Type 0 where
  pub object : Ptr
  pub chars : Ptr
  pub value : A

module _ {A : Type 0} where
  abbrev pub has_object : Ptr → List (Cell A) → Bool
  has_object a [] = false
  has_object a (c ∷ cs) = (a == c.object) || has_object a cs

  abbrev pub has_chars : Ptr → List (Cell A) → Bool
  has_chars a [] = false
  has_chars a (c ∷ cs) = (a == c.chars) || has_chars a cs

  -- The first address of a chain, and its last, which is `prev` where the chain is empty.
  abbrev pub head_of : List (Cell A) → Ptr
  head_of [] = null
  head_of (c ∷ cs) = c.object

  abbrev pub last_of : Ptr → List (Cell A) → Ptr
  last_of prev [] = prev
  last_of prev (c ∷ cs) = last_of c.object cs

  -- The heap holds the cell `c`, with these neighbours.
  pub record Holds (h : Heap A) (prev next : Ptr) (c : Cell A) : Type 0 where
    pub object_ne : c.object ≢ null
    pub chars_ne : c.chars ≢ null
    pub node_at : h.nodes c.object ≡ some (node c.chars next prev)
    pub value_at : h.payloads c.chars ≡ some c.value

  -- The cells lie behind one another, linked both ways, at distinct addresses.
  abbrev pub Chain : Heap A → Ptr → List (Cell A) → Type 0
  Chain h prev [] = Unit {0}
  Chain h prev (c ∷ cs) =
      Holds h prev (head_of cs) c
      × (has_object c.object cs ≡ false)
      × (has_chars c.chars cs ≡ false)
      × Chain h c.object cs

  pub record IsList (h : Heap A) (l : ObjectList) (cells : List (Cell A)) : Type 0 where
    pub first_is : l.first ≡ head_of cells
    pub last_is : l.last ≡ last_of null cells
    pub chain : Chain h null cells

  -- `g` differs from `h` at most at the nodes and payloads of the cells.
  pub record SameOutside (cells : List (Cell A)) (h g : Heap A) : Type 0 where
    pub nodes_same : (a : Ptr) → has_object a cells ≡ false → g.nodes a ≡ h.nodes a
    pub payloads_same : (a : Ptr) → has_chars a cells ≡ false → g.payloads a ≡ h.payloads a

  module _ {h : Heap A} {prev next : Ptr} {c : Cell A} (held : Holds h prev next c) where
    pub object_not_null : (c.object == null) ≡ false
    object_not_null = ground (arith, held.object_ne)

    pub chars_not_null : (c.chars == null) ≡ false
    chars_not_null = ground (arith, held.chars_ne)

    pub load-Holds : load c.object h ≡ some (node c.chars next prev, h)
    unfolding load
    load-Holds = rw (object_not_null, held.node_at)

    pub load_payload-Holds : load_payload c.chars h ≡ some (c.value, h)
    unfolding load_payload
    load_payload-Holds = rw (chars_not_null, held.value_at)

  -- A chain survives a change that spares its own addresses.
  pub Chain-frame :
      {h g : Heap A} (prev : Ptr) (cells : List (Cell A))
      → ((a : Ptr) → has_object a cells ≡ true → g.nodes a ≡ h.nodes a)
      → ((a : Ptr) → has_chars a cells ≡ true → g.payloads a ≡ h.payloads a)
      → Chain h prev cells
      → Chain g prev cells
  Chain-frame prev [] on op ch = tt
  Chain-frame prev (c ∷ cs) on op (held, out, pout, ch) = (
    record {
      object_ne = held.object_ne;
      chars_ne = held.chars_ne;
      node_at = ground (arith, on c.object, held.node_at);
      value_at = ground (arith, op c.chars, held.value_at);
    },
    out,
    pout,
    Chain-frame c.object cs (λ a i. on a (ground arith)) (λ a i. op a (ground arith)) ch,
  )

  pub last_of-mem :
      (prev : Ptr) (c : Cell A) (cs : List (Cell A))
      → has_object (last_of prev (c ∷ cs)) (c ∷ cs) ≡ true
  last_of-mem prev c [] = ground arith
  last_of-mem prev c (d ∷ ds) = ground (arith, last_of-mem c.object d ds)

  pub last_of-append :
      (prev : Ptr) (cs : List (Cell A)) (c : Cell A) → last_of prev (cs ++ c ∷ []) ≡ c.object
  last_of-append prev [] c = refl
  last_of-append prev (d ∷ ds) c = last_of-append d.object ds c

  pub has_object-append :
      (a : Ptr) (xs ys : List (Cell A))
      → has_object a (xs ++ ys) ≡ (has_object a xs || has_object a ys)
  has_object-append a [] ys = refl
  has_object-append a (x ∷ xs) ys = ground (arith, has_object-append a xs ys)

  pub has_chars-append :
      (a : Ptr) (xs ys : List (Cell A))
      → has_chars a (xs ++ ys) ≡ (has_chars a xs || has_chars a ys)
  has_chars-append a [] ys = refl
  has_chars-append a (x ∷ xs) ys = ground (arith, has_chars-append a xs ys)
