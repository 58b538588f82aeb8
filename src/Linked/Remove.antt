-- ===== src/Linked/Remove.antt =====
-- `remove_object`: the first cell with the wanted object is taken out of the chain.
use daim.Prelude.{
  ℕ, zero, suc, ◌<◌, ◌≡◌, ◌≢◌, refl, sym, ap, ◌∙◌, Bool, true, false, none, some, List, [], ◌∷◌,
  ◌++◌, length, arith, ◌==◌, eq_ne, eq_self,
}
use daim.Linked.Heap.{Ptr, null, Node, node, Heap, Returns, Returns-mono, Returns-then}
use daim.Linked.Ops.{ObjectList, unlink, remove_loop, remove_object}
use daim.Linked.Chain.{
  Cell, has_object, head_of, last_of, Chain, IsList, object_not_null, chars_not_null,
}
use daim.Linked.Splice.{Spliced, has_object-Outside, ne_last_of, ne_head_of, Chain-splice}
use daim.Linked.Unlink.{Between, unlink_both, unlink_first, unlink_last, unlink_only}

module _ {A : Type 0} where
  module _ (same : A → Bool) where
    -- No cell has the wanted object.
    abbrev pub Others : List (Cell A) → Type 0
    Others [] = Unit {0}
    Others (x ∷ xs) = (same x.value ≡ false) × Others xs

    -- The loop passes over the cells before the first one with the wanted object.
    remove_loop-reach :
        (fuel : ℕ) (h : Heap A) (l : ObjectList) (prev : Ptr) (xs ys : List (Cell A)) (c : Cell A)
        → Chain h prev (xs ++ c ∷ ys)
        → Others xs
        → same c.value ≡ true
        → length xs < fuel
        → remove_loop same fuel (head_of (xs ++ c ∷ ys)) l h
          ≡ unlink c.object (node c.chars (head_of ys) (last_of prev xs)) l h
    unfolding remove_loop
    remove_loop-reach zero h l prev xs ys c ch others found lt = absurd (omega arith)
    remove_loop-reach (suc fuel) h l prev [] ys c ch others found lt =
        simp (object_not_null ch.0, chars_not_null ch.0, ch.0.node_at, ch.0.value_at, found)
    remove_loop-reach (suc fuel) h l prev (x ∷ xs) ys c ch (other, others) found lt =
        simp (object_not_null ch.0, chars_not_null ch.0, ch.0.node_at, ch.0.value_at, other)
          (remove_loop-reach fuel h l x.object xs ys c ch.3 others found (omega arith))

  null_outside :
      (h : Heap A) (prev : Ptr) (cells : List (Cell A))
      → Chain h prev cells
      → has_object null cells ≡ false
  null_outside h prev [] ch = refl
  null_outside h prev (c ∷ cs) ch =
      let rest = null_outside h c.object cs ch.3 in
      let ne : c.object ≢ null = ch.0.object_ne in ground arith

  ne_cons :
      (a : Ptr) (c : Cell A) (cs : List (Cell A))
      → has_object a (c ∷ cs) ≡ false
      → (a ≢ c.object) × (has_object a cs ≡ false)
  ne_cons a c cs out = ((λ e. ground arith), ground arith)

  between :
      (h : Heap A) (prev : Ptr) (xs ys : List (Cell A)) (c : Cell A)
      → has_object prev (xs ++ c ∷ ys) ≡ false
      → (prev ≢ null → (n : Node) × (h.nodes prev ≡ some n))
      → Chain h prev (xs ++ c ∷ ys)
      → Between h (last_of prev xs) (head_of ys) c
  between h prev [] [] c apart at (held, out, pout, ch) = record {
    held = held;
    apart_prev = λ e. (ne_cons prev c [] apart).0 (sym e);
    apart_next = held.object_ne;
    apart = λ ne. ne;
    prev_node = at;
    next_node = λ ne. absurd (ne refl);
  }
  between h prev [] (d ∷ ds) c apart at (held, out, pout, ch) =
      let (other, rest) = ne_cons prev c (d ∷ ds) apart in
      record {
        held = held;
        apart_prev = λ e. other (sym e);
        apart_next = (ne_cons c.object d ds out).0;
        apart = λ ne. (ne_cons prev d ds rest).0;
        prev_node = at;
        next_node = λ ne. (_, ch.0.node_at);
      }
  between h prev (x ∷ xs) ys c apart at (held, out, pout, ch) =
      between h x.object xs ys c out (λ ne. (_, held.node_at)) ch

  last_of-through :
      (prev : Ptr) (xs ys : List (Cell A)) (c : Cell A)
      → last_of prev (xs ++ c ∷ ys) ≡ last_of c.object ys
  last_of-through prev [] ys c = refl
  last_of-through prev (x ∷ xs) ys c = last_of-through x.object xs ys c

  last_of-nil : (prev : Ptr) (xs : List (Cell A)) → last_of prev (xs ++ []) ≡ last_of prev xs
  last_of-nil prev [] = refl
  last_of-nil prev (x ∷ xs) = last_of-nil x.object xs

  -- The list after the cell has been unlinked.
  record Relinked (l l' : ObjectList) (xs ys : List (Cell A)) : Type 0 where
    first_is : l'.first ≡ head_of (xs ++ ys)
    last_is : l'.last ≡ last_of null (xs ++ ys)
    cursor : l'.current ≡ l.current

  last_some :
      (h : Heap A) (prev : Ptr) (x : Cell A) (xs ys : List (Cell A))
      → Chain h prev (x ∷ xs ++ ys)
      → last_of prev (x ∷ xs) ≢ null
  last_some h prev x [] ys ch = ch.0.object_ne
  last_some h prev x (y ∷ zs) ys ch = last_some h x.object y zs ys ch.3

  once :
      (h : Heap A) (prev : Ptr) (xs ys : List (Cell A)) (c : Cell A)
      → Chain h prev (xs ++ c ∷ ys)
      → has_object c.object ys ≡ false
  once h prev [] ys c ch = ch.1
  once h prev (x ∷ xs) ys c ch = once h x.object xs ys c ch.3

  not_first :
      (h : Heap A) (l : ObjectList) (x c : Cell A) (xs ys : List (Cell A))
      → IsList h l (x ∷ xs ++ c ∷ ys)
      → (c.object == l.first) ≡ false
  not_first h l x c xs ys is =
      let apart = has_object-Outside x.object xs ys c is.chain.1 in
      eq_ne _ _ (λ e. apart.other (sym (e ∙ is.first_is)))

  not_last :
      (h : Heap A) (l : ObjectList) (xs ds : List (Cell A)) (c d : Cell A)
      → IsList h l (xs ++ c ∷ d ∷ ds)
      → (c.object == l.last) ≡ false
  not_last h l xs ds c d is = eq_ne _ _ (λ e.
      ne_last_of c.object c.object d ds (once h null xs (d ∷ ds) c is.chain)
        (e ∙ is.last_is ∙ last_of-through null xs (d ∷ ds) c))

  IsList-Between :
      (h : Heap A) (l : ObjectList) (xs ys : List (Cell A)) (c : Cell A)
      → IsList h l (xs ++ c ∷ ys)
      → Between h (last_of null xs) (head_of ys) c
  IsList-Between h l xs ys c is =
      between h null xs ys c (null_outside h null (xs ++ c ∷ ys) is.chain) (λ ne. absurd (ne refl))
        is.chain

  next_some :
      (h : Heap A) (prev : Ptr) (xs ds : List (Cell A)) (c d : Cell A)
      → Chain h prev (xs ++ c ∷ d ∷ ds)
      → d.object ≢ null
  next_some h prev [] ds c d ch = ch.3.0.object_ne
  next_some h prev (x ∷ xs) ds c d ch = next_some h x.object xs ds c d ch.3

  unlink-Relinked :
      (h : Heap A) (l : ObjectList) (xs ys : List (Cell A)) (c : Cell A)
      → IsList h l (xs ++ c ∷ ys)
      → Returns
          (λ l' g. Relinked l l' xs ys × Spliced h g (last_of null xs) (head_of ys) c)
          (unlink c.object (node c.chars (head_of ys) (last_of null xs)) l h)
  unlink-Relinked h l [] [] c is =
      let first : (c.object == l.first) ≡ true = rw (is.first_is) (eq_self c.object) in
      let last : (c.object == l.last) ≡ true = rw (is.last_is) (eq_self c.object) in
      Returns-mono (unlink c.object (node c.chars null null) l h)
        (unlink_only h l c (IsList-Between h l [] [] c is) first last)
        λ l' g (same, spliced).
          (rw same (record { first_is = refl; last_is = refl; cursor = refl }), spliced)
  unlink-Relinked h l [] (d ∷ ds) c is =
      let first : (c.object == l.first) ≡ true = rw (is.first_is) (eq_self c.object) in
      let b = IsList-Between h l [] (d ∷ ds) c is in
      let some_next : d.object ≢ null = is.chain.3.0.object_ne in
      Returns-mono (unlink c.object (node c.chars d.object null) l h)
        (unlink_first h l d.object c b some_next first (not_last h l [] ds c d is))
        λ l' g (same, spliced).
          (rw same (record { first_is = refl; last_is = is.last_is; cursor = refl }), spliced)
  unlink-Relinked h l (x ∷ xs) [] c is =
      let b = IsList-Between h l (x ∷ xs) [] c is in
      let last : (c.object == l.last) ≡ true =
        rw (is.last_is ∙ last_of-through null (x ∷ xs) [] c) (eq_self c.object) in
      let some_prev = last_some h null x xs (c ∷ []) is.chain in
      Returns-mono (unlink c.object (node c.chars null (last_of null (x ∷ xs))) l h)
        (unlink_last h l (last_of null (x ∷ xs)) c b some_prev (not_first h l x c xs [] is) last)
        λ l' g (same, spliced). (
          rw same (record {
            first_is = is.first_is;
            last_is = sym (last_of-nil null (x ∷ xs));
            cursor = refl;
          }),
          spliced,
        )
  unlink-Relinked h l (x ∷ xs) (d ∷ ds) c is =
      let b = IsList-Between h l (x ∷ xs) (d ∷ ds) c is in
      let some_prev = last_some h null x xs (c ∷ d ∷ ds) is.chain in
      let some_next = next_some h null (x ∷ xs) ds c d is.chain in
      Returns-mono (unlink c.object (node c.chars d.object (last_of null (x ∷ xs))) l h)
        (unlink_both h l (last_of null (x ∷ xs)) d.object c b some_prev some_next
          (not_first h l x c xs (d ∷ ds) is) (not_last h l (x ∷ xs) ds c d is))
        λ l' g (same, spliced). (
          rw same (record {
            first_is = is.first_is;
            last_is =
                is.last_is
                ∙ last_of-through null (x ∷ xs) (d ∷ ds) c
                ∙ sym (last_of-through null (x ∷ xs) ds d);
            cursor = refl;
          }),
          spliced,
        )

  first_some :
      (h : Heap A) (prev : Ptr) (xs ys : List (Cell A)) (c : Cell A)
      → Chain h prev (xs ++ c ∷ ys)
      → head_of (xs ++ c ∷ ys) ≢ null
  first_some h prev [] ys c ch = ch.0.object_ne
  first_some h prev (x ∷ xs) ys c ch = ch.0.object_ne

  outside_same :
      (h g : Heap A) (xs ys : List (Cell A)) (c : Cell A) (a : Ptr)
      → Spliced h g (last_of null xs) (head_of ys) c
      → a ≢ null
      → has_object a (xs ++ c ∷ ys) ≡ false
      → g.nodes a ≡ h.nodes a
  outside_same h g [] ys c a spliced ne out =
      let apart = has_object-Outside a [] ys c out in
      spliced.nodes_same a ne (ne_head_of a ys ne apart.behind) apart.other
  outside_same h g (x ∷ xs) ys c a spliced ne out =
      let apart = has_object-Outside a (x ∷ xs) ys c out in
      spliced.nodes_same a (ne_last_of a null x xs apart.in_front) (ne_head_of a ys ne apart.behind)
        apart.other

  -- `l` without the cell `c`, of which both parts of memory have been given back.
  pub record Removed (h : Heap A) (l : ObjectList) (xs : List (Cell A)) (c : Cell A)
      (ys : List (Cell A)) (r : Bool × ObjectList) (g : Heap A) : Type 0 where
    pub result : r.0 ≡ true
    pub listed : IsList g r.1 (xs ++ ys)
    pub cursor : r.1.current ≡ l.current
    pub node_freed : g.nodes c.object ≡ none
    pub chars_freed : g.payloads c.chars ≡ none
    pub nodes_same :
        (a : Ptr) → a ≢ null → has_object a (xs ++ c ∷ ys) ≡ false → g.nodes a ≡ h.nodes a
    pub payloads_same : (a : Ptr) → a ≢ c.chars → g.payloads a ≡ h.payloads a

  -- Where `c` is the first cell whose object `memcmp` finds equal to the given one, `remove_object`
  -- takes `c` out of the list, wherever it stands: the cells before and behind it make the list, linked
  -- both ways, its node and its payload are given back, and nothing else is. The cursor is not moved.
  -- There has to be more fuel than cells before `c`.
  pub remove_object-Removed :
      (same : A → Bool) (fuel : ℕ) (h : Heap A) (l : ObjectList) (xs : List (Cell A)) (c : Cell A)
      (ys : List (Cell A))
      → IsList h l (xs ++ c ∷ ys)
      → Others same xs
      → same c.value ≡ true
      → length xs < fuel
      → Returns (Removed h l xs c ys) (remove_object same fuel l h)
  unfolding remove_object
  remove_object-Removed same fuel h l xs c ys is others found lt =
      let some_first : (l.first == null) ≡ false =
        eq_ne _ _ (λ e. first_some h null xs ys c is.chain (sym is.first_is ∙ e)) in
      let reach : remove_loop same fuel l.first l h
          ≡ unlink c.object (node c.chars (head_of ys) (last_of null xs)) l h =
        ap (λ (a : Ptr). remove_loop same fuel a l h) is.first_is
        ∙ remove_loop-reach same fuel h l null xs ys c is.chain others found lt in
      simp (some_first, reach)
        (Returns-then (Removed h l xs c ys) _
          (unlink c.object (node c.chars (head_of ys) (last_of null xs)) l h)
          (unlink-Relinked h l xs ys c is)
          λ l' g (relinked, spliced). record {
            result = refl;
            listed = record {
              first_is = relinked.first_is;
              last_is = relinked.last_is;
              chain =
                  Chain-splice null xs ys c spliced (null_outside h null (xs ++ c ∷ ys) is.chain)
                    is.chain;
            };
            cursor = relinked.cursor;
            node_freed = spliced.node_gone;
            chars_freed = spliced.chars_gone;
            nodes_same = λ a ne out. outside_same h g xs ys c a spliced ne out;
            payloads_same = spliced.payloads_same;
          })
