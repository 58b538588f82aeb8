-- ===== src/Linked/Add.antt =====
-- `add_object`.
use daim.Prelude.{
  ◌≡◌, ◌≢◌, refl, true, false, Option, none, some, List, [], ◌∷◌, ◌++◌, ◌==◌, arith, ap, eq_self,
  eq_ne, ◌∙◌, sym,
}
use daim.Linked.Heap.{Ptr, null, Node, Heap, load, write, write_self, write-ne, Returns}
use daim.Linked.Ops.{ObjectList, Allocation, add_first, add_last, add_object}
use daim.Linked.Chain.{
  Cell, has_object, has_chars, last_of, Holds, Chain, IsList, SameOutside, last_of-mem,
  last_of-append, has_object-append, has_chars-append,
}

-- The node map after `add_last`: four writes to the new node `a`, then one to the old last `b`.
module _ (f : Ptr → Option Node) (a b : Ptr) (n0 n1 n2 n3 m : Option Node) where
  abbrev relink : Ptr → Option Node
  relink = write (write (write (write (write f a n0) a n1) a n2) a n3) b m

  relink-new : a ≢ b → relink a ≡ n3
  relink-new ne = rw (write-ne _ b m a ne, write_self)

  relink-ne : (x : Ptr) → x ≢ b → x ≢ a → relink x ≡ f x
  unfolding write
  relink-ne x xb xa = ground (arith)

relinked_node :
    (f : Ptr → Option Node) (b : Ptr) (n m : Node) (q : Ptr)
    → f b ≡ some n
    → f b ≡ some m
    → some (record n { next = q }) ≡ some (record m { next = q })
relinked_node f b n m q e e' = cc

module _ {A : Type 0} where
  abbrev pub cell_of : Allocation A → Cell A
  cell_of new = record { object = new.object; chars = new.chars; value = new.stale_chars }

  -- `g` is `h` with the cell `c` linked behind the node `last`.
  record Grown (h g : Heap A) (last : Ptr) (c : Cell A) : Type 0 where
    held : Holds g last null c
    relinked :
        (n : Node) → h.nodes last ≡ some n → g.nodes last ≡ some (record n { next = c.object })
    nodes_same : (a : Ptr) → a ≢ last → a ≢ c.object → g.nodes a ≡ h.nodes a
    payloads_same : (a : Ptr) → a ≢ c.chars → g.payloads a ≡ h.payloads a

  Chain-append :
      {h g : Heap A} (prev : Ptr) (d : Cell A) (ds : List (Cell A)) (c : Cell A)
      → Grown h g (last_of prev (d ∷ ds)) c
      → has_object c.object (d ∷ ds) ≡ false
      → has_chars c.chars (d ∷ ds) ≡ false
      → Chain h prev (d ∷ ds)
      → Chain g prev (d ∷ ds ++ c ∷ [])
  Chain-append prev d [] c grown fo fc (held, out, pout, ch) = (
    record {
      object_ne = held.object_ne;
      chars_ne = held.chars_ne;
      node_at = grown.relinked _ held.node_at;
      value_at = grown.payloads_same d.chars (ground arith) ∙ held.value_at;
    },
    ground arith,
    ground arith,
    (grown.held, refl, refl, tt),
  )
  Chain-append prev d (e ∷ es) c grown fo fc (held, out, pout, ch) = (
    record {
      object_ne = held.object_ne;
      chars_ne = held.chars_ne;
      node_at =
          grown.nodes_same d.object (ground (arith, last_of-mem d.object e es)) (ground arith)
          ∙ held.node_at;
      value_at = grown.payloads_same d.chars (ground arith) ∙ held.value_at;
    },
    rw (has_object-append d.object (e ∷ es) (c ∷ [])) (ground arith),
    rw (has_chars-append d.chars (e ∷ es) (c ∷ [])) (ground arith),
    Chain-append d.object e es c grown (ground arith) (ground arith) ch,
  )

  -- The last node of a chain is allocated, and nothing is behind it.
  last_node :
      (h : Heap A) (prev : Ptr) (d : Cell A) (ds : List (Cell A))
      → Chain h prev (d ∷ ds)
      → (n : Node) × (h.nodes (last_of prev (d ∷ ds)) ≡ some n) × (last_of prev (d ∷ ds) ≢ null)
  last_node h prev d [] ch = (_, ch.0.node_at, ch.0.object_ne)
  last_node h prev d (e ∷ es) ch = last_node h d.object e es ch.3

  -- Memory that is not allocated belongs to no cell.
  pub has_object-fresh :
      (h : Heap A) (prev a : Ptr) (cells : List (Cell A))
      → h.nodes a ≡ none
      → Chain h prev cells
      → has_object a cells ≡ false
  has_object-fresh h prev a [] free ch = refl
  has_object-fresh h prev a (c ∷ cs) free ch =
      ground (arith, ch.0.node_at, has_object-fresh h c.object a cs free ch.3)

  has_chars-fresh :
      (h : Heap A) (prev a : Ptr) (cells : List (Cell A))
      → h.payloads a ≡ none
      → Chain h prev cells
      → has_chars a cells ≡ false
  has_chars-fresh h prev a [] free ch = refl
  has_chars-fresh h prev a (c ∷ cs) free ch =
      ground (arith, ch.0.value_at, has_chars-fresh h c.object a cs free ch.3)

  ne_object-append :
      (a : Ptr) (cs : List (Cell A)) (c : Cell A)
      → has_object a (cs ++ c ∷ []) ≡ false
      → a ≢ c.object
  ne_object-append a cs c o = ground (arith, has_object-append a cs (c ∷ []))

  ne_chars-append :
      (a : Ptr) (cs : List (Cell A)) (c : Cell A) → has_chars a (cs ++ c ∷ []) ≡ false → a ≢ c.chars
  ne_chars-append a cs c o = ground (arith, has_chars-append a cs (c ∷ []))

  ne_last-append :
      (a prev : Ptr) (d : Cell A) (ds : List (Cell A)) (c : Cell A)
      → has_object a (d ∷ ds ++ c ∷ []) ≡ false
      → a ≢ last_of prev (d ∷ ds)
  ne_last-append a prev d ds c o =
      ground (arith, has_object-append a (d ∷ ds) (c ∷ []), last_of-mem prev d ds)

  -- The state that `add_object` leaves when both allocations succeed: a list with one more cell.
  pub record Added (h : Heap A) (new : Allocation A) (l : ObjectList) (cells : List (Cell A))
      (r : Ptr × ObjectList) (g : Heap A) : Type 0 where
    pub result : r.0 ≡ new.chars
    pub listed : IsList g r.1 (cells ++ cell_of new ∷ [])
    pub cursor : r.1.current ≡ l.current
    pub outside : SameOutside (cells ++ cell_of new ∷ []) h g

  add_first-Added :
      (h : Heap A) (new : Allocation A) (l : ObjectList)
      → new.object ≢ null
      → new.chars ≢ null
      → Returns (Added h new l []) (add_first new l h)
  unfolding add_first load write
  add_first-Added h new l on cn =
      simp (eq_ne _ _ on, eq_ne _ _ cn, eq_self)
        (record {
          result = refl;
          listed = record {
            first_is = refl;
            last_is = refl;
            chain = (
              record {
                object_ne = on;
                chars_ne = cn;
                node_at = ground arith;
                value_at = ground arith;
              },
              refl,
              refl,
              tt,
            );
          };
          cursor = refl;
          outside = record {
            nodes_same = λ a o. ground arith;
            payloads_same = λ a o. ground arith;
          };
        })

  add_last-Added :
      (h : Heap A) (new : Allocation A) (l : ObjectList) (d : Cell A) (ds : List (Cell A))
      (n : Node)
      → new.object ≢ null
      → new.chars ≢ null
      → IsList h l (d ∷ ds)
      → h.nodes l.last ≡ some n
      → l.last ≢ null
      → l.last ≢ new.object
      → has_object new.object (d ∷ ds) ≡ false
      → has_chars new.chars (d ∷ ds) ≡ false
      → Returns (Added h new l (d ∷ ds)) (add_last new l h)
  unfolding add_last load write
  add_last-Added h new l d ds n on cn is hn ln apart fo fc =
      simp (eq_ne _ _ on, eq_ne _ _ cn, eq_ne _ _ ln, eq_ne _ _ apart, eq_self, hn)
        (record {
          result = refl;
          listed = record {
            first_is = is.first_is;
            last_is = sym (last_of-append null (d ∷ ds) (cell_of new));
            chain =
                Chain-append null d ds (cell_of new)
                  (rw (← is.last_is) (record {
                    held = record {
                      object_ne = on;
                      chars_ne = cn;
                      node_at = relink-new h.nodes new.object l.last _ _ _ _ _ (λ e. apart (sym e));
                      value_at = write_self h.payloads new.chars _;
                    };
                    relinked = λ m e. rw write_self (relinked_node h.nodes l.last n m _ hn e);
                    nodes_same = λ a p q. relink-ne h.nodes new.object l.last _ _ _ _ _ a p q;
                    payloads_same = λ a p. write-ne h.payloads new.chars _ a p;
                  }))
                  fo fc is.chain;
          };
          cursor = refl;
          outside = record {
            nodes_same = λ a o.
                relink-ne h.nodes new.object l.last _ _ _ _ _ a
                  (λ e. ne_last-append a null d ds (cell_of new) o (e ∙ is.last_is))
                  (ne_object-append a (d ∷ ds) (cell_of new) o);
            payloads_same = λ a o.
                write-ne h.payloads new.chars _ a (ne_chars-append a (d ∷ ds) (cell_of new) o);
          };
        })

  -- `add_object` with both allocations granted: it returns the new payload buffer, the list has one
  -- more cell at its end, the cursor stays, and nothing else on the heap changes.
  pub add_object-append :
      (h : Heap A) (new : Allocation A) (l : ObjectList) (cells : List (Cell A))
      → IsList h l cells
      → new.object ≢ null
      → new.chars ≢ null
      → h.nodes new.object ≡ none
      → h.payloads new.chars ≡ none
      → Returns (Added h new l cells) (add_object new l h)
  unfolding add_object
  add_object-append h new l [] is on cn fo fc =
      let e : (l.first == null) ≡ true = ground (arith, is.first_is) in
      simp e (add_first-Added h new l on cn)
  add_object-append h new l (d ∷ ds) is on cn fo fc =
      let (n, hn, ln) = last_node h null d ds is.chain in
      let hn' : h.nodes l.last ≡ some n = ap h.nodes is.last_is ∙ hn in
      let ln' : l.last ≢ null = λ e. ln (sym is.last_is ∙ e) in
      let e : (l.first == null) ≡ false = ground (arith, is.first_is, is.chain.0.object_ne) in
      simp e (
        add_last-Added h new l d ds n on cn is hn' ln' (λ e. cc)
          (has_object-fresh h null new.object (d ∷ ds) fo is.chain)
          (has_chars-fresh h null new.chars (d ∷ ds) fc is.chain))
