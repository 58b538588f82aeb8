-- ===== src/Linked/Unlink.antt =====
-- The four cases of `unlink`, the body of `remove_object`, on the heap.
use daim.Prelude.{◌≡◌, ◌≢◌, refl, sym, true, false, Option, some, arith, ◌==◌, eq_ne, eq_self}
use daim.Linked.Heap.{Ptr, null, Node, node, Heap, write, load, load_payload, Returns}
use daim.Linked.Ops.{ObjectList, unlink}
use daim.Linked.Chain.{Cell, Holds, object_not_null, chars_not_null}
use daim.Linked.Splice.{Spliced}

-- A node with another successor, or another predecessor, whichever way it was found.
next_replaced :
    (f : Ptr → Option Node) (a q : Ptr) (n m : Node)
    → f a ≡ some n
    → f a ≡ some m
    → some (record n { next = q }) ≡ some (record m { next = q })
next_replaced f a q n m e e' = cc

prev_replaced :
    (f : Ptr → Option Node) (a q : Ptr) (n m : Node)
    → f a ≡ some n
    → f a ≡ some m
    → some (record n { prev = q }) ≡ some (record m { prev = q })
prev_replaced f a q n m e e' = cc

module _ {A : Type 0} where
  -- What `unlink` needs of the heap: the cell between `prev` and `next`, and their nodes if any.
  pub record Between (h : Heap A) (prev next : Ptr) (c : Cell A) : Type 0 where
    pub held : Holds h prev next c
    pub apart_prev : c.object ≢ prev
    pub apart_next : c.object ≢ next
    pub apart : prev ≢ null → prev ≢ next
    pub prev_node : prev ≢ null → (n : Node) × (h.nodes prev ≡ some n)
    pub next_node : next ≢ null → (n : Node) × (h.nodes next ≡ some n)

  pub unlink_both :
      (h : Heap A) (l : ObjectList) (prev next : Ptr) (c : Cell A)
      → Between h prev next c
      → prev ≢ null
      → next ≢ null
      → (c.object == l.first) ≡ false
      → (c.object == l.last) ≡ false
      → Returns
          (λ l' g. (l' ≡ l) × Spliced h g prev next c)
          (unlink c.object (node c.chars next prev) l h)
  unfolding unlink load load_payload write
  unlink_both h l prev next c b some_prev some_next no_first no_last =
      let held = b.held in
      let (pn, prev_at) = b.prev_node some_prev in
      let (nn, next_at) = b.next_node some_next in
      simp
        (
          no_first,
          no_last,
          object_not_null held,
          chars_not_null held,
          eq_ne _ _ some_prev,
          eq_ne _ _ some_next,
          eq_ne _ _ b.apart_prev,
          eq_ne _ _ b.apart_next,
          eq_ne _ _ (b.apart some_prev),
          held.node_at,
          held.value_at,
          prev_at,
          next_at,
          eq_self,
        )
        (
          refl,
          record {
            node_gone = ground arith;
            chars_gone = ground arith;
            forward = λ n some_prev' at.
                simp (eq_ne _ _ (λ e. b.apart_prev (sym e)), eq_self)
                  (next_replaced h.nodes prev next pn n prev_at at);
            backward = λ n some_next' at.
                simp
                  (
                    eq_ne _ _ (λ e. b.apart_next (sym e)),
                    eq_ne _ _ (λ e. b.apart some_prev (sym e)),
                    eq_self,
                  )
                  (prev_replaced h.nodes next prev nn n next_at at);
            nodes_same = λ a np nn' nc. ground arith;
            payloads_same = λ a nc. ground arith;
          },
        )

  pub unlink_first :
      (h : Heap A) (l : ObjectList) (next : Ptr) (c : Cell A)
      → Between h null next c
      → next ≢ null
      → (c.object == l.first) ≡ true
      → (c.object == l.last) ≡ false
      → Returns
          (λ l' g. (l' ≡ record l { first = next }) × Spliced h g null next c)
          (unlink c.object (node c.chars next null) l h)
  unfolding unlink load load_payload write
  unlink_first h l next c b some_next first no_last =
      let held = b.held in
      let (nn, next_at) = b.next_node some_next in
      simp
        (
          first,
          no_last,
          object_not_null held,
          chars_not_null held,
          eq_ne _ _ some_next,
          eq_ne _ _ b.apart_next,
          held.node_at,
          held.value_at,
          next_at,
          eq_self,
        )
        (
          refl,
          record {
            node_gone = ground arith;
            chars_gone = ground arith;
            forward = λ n some_prev' at. absurd (some_prev' refl);
            backward = λ n some_next' at.
                simp (eq_ne _ _ (λ e. b.apart_next (sym e)), eq_self)
                  (prev_replaced h.nodes next null nn n next_at at);
            nodes_same = λ a np nn' nc. ground arith;
            payloads_same = λ a nc. ground arith;
          },
        )

  pub unlink_last :
      (h : Heap A) (l : ObjectList) (prev : Ptr) (c : Cell A)
      → Between h prev null c
      → prev ≢ null
      → (c.object == l.first) ≡ false
      → (c.object == l.last) ≡ true
      → Returns
          (λ l' g. (l' ≡ record l { last = prev }) × Spliced h g prev null c)
          (unlink c.object (node c.chars null prev) l h)
  unfolding unlink load load_payload write
  unlink_last h l prev c b some_prev no_first last =
      let held = b.held in
      let (pn, prev_at) = b.prev_node some_prev in
      simp
        (
          no_first,
          last,
          object_not_null held,
          chars_not_null held,
          eq_ne _ _ some_prev,
          eq_ne _ _ b.apart_prev,
          held.node_at,
          held.value_at,
          prev_at,
          eq_self,
        )
        (
          refl,
          record {
            node_gone = ground arith;
            chars_gone = ground arith;
            forward = λ n some_prev' at.
                simp (eq_ne _ _ (λ e. b.apart_prev (sym e)), eq_self)
                  (next_replaced h.nodes prev null pn n prev_at at);
            backward = λ n some_next' at. absurd (some_next' refl);
            nodes_same = λ a np nn' nc. ground arith;
            payloads_same = λ a nc. ground arith;
          },
        )

  pub unlink_only :
      (h : Heap A) (l : ObjectList) (c : Cell A)
      → Between h null null c
      → (c.object == l.first) ≡ true
      → (c.object == l.last) ≡ true
      → Returns
          (λ l' g. (l' ≡ record l { first = null; last = null }) × Spliced h g null null c)
          (unlink c.object (node c.chars null null) l h)
  unfolding unlink load load_payload write
  unlink_only h l c b first last =
      let held = b.held in
      simp
        (
          first,
          last,
          object_not_null held,
          chars_not_null held,
          held.node_at,
          held.value_at,
          eq_self,
        )
        (
          refl,
          record {
            node_gone = ground arith;
            chars_gone = ground arith;
            forward = λ n some_prev' at. absurd (some_prev' refl);
            backward = λ n some_next' at. absurd (some_next' refl);
            nodes_same = λ a np nn' nc. ground arith;
            payloads_same = λ a nc. ground arith;
          },
        )
