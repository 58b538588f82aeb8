-- ===== src/Table/Refines.antt =====
-- The methods of linked.cpp over the heap against those of `Table.Ops`.
use daim.Prelude.{
  ℕ, suc, ◌<◌, ◌≡◌, ◌≢◌, refl, sym, ap, ◌∙◌, inl, inr, true, false, Option, none, some, List, [],
  ◌∷◌, ◌++◌, length, get_elem?, Option-cases,
}
use daim.Linked.Heap.{Ptr, null, Heap, Returns, Returns-mono}
use daim.Linked.Ops as Methods
use daim.Linked.Ops.{ObjectList, Allocation, current_object}
use daim.Linked.Chain.{Cell, IsList, load-Holds, object_not_null}
use daim.Linked.Add.{cell_of, add_object-append}
use daim.Linked.Free.{free_list-Emptied}
use daim.Table.Ops as Tables
use daim.Table.Ops.{
  Table, Cursor, rewound, on, dangling, granted, left_behind, add_whole, get_whole, step_to,
}
use daim.Table.Represents.{
  values, CursorAt, Represents, Points, object_of, chars_of, head_of-first, Chain-at,
  current_object-at, get_elem?-values, get_elem?-values-none, get_elem?-append,
}

module _ {A : Type 0} where
  values-append :
      (cells : List (Cell A)) (c : Cell A) → values (cells ++ c ∷ []) ≡ values cells ++ c.value ∷ []
  values-append [] c = refl
  values-append (d ∷ ds) c = ap (λ (xs : List A). d.value ∷ xs) (values-append ds c)

  CursorAt-append :
      (xs ys : List (Cell A)) (k : Cursor) (p q : Ptr)
      → q ≡ p
      → CursorAt xs k p
      → CursorAt (xs ++ ys) k q
  CursorAt-append xs ys rewound p q e at = e ∙ at
  CursorAt-append xs ys (on i) p q e (c, at, here) = (c, get_elem?-append xs ys i c at, e ∙ here)
  CursorAt-append xs ys dangling p q e at = tt

  -- `add_object` with both allocations granted, at addresses that are not null and not in use, ends
  -- without undefined behaviour, returns the new payload, and leaves a list that stands for the table
  -- after the abstract `add_object` of what the new memory holds.
  pub add_object-Represents :
      (h : Heap A) (new : Allocation A) (l : ObjectList) (cells : List (Cell A)) (t : Table A)
      → Represents h l cells t
      → new.object ≢ null
      → new.chars ≢ null
      → h.nodes new.object ≡ none
      → h.payloads new.chars ≡ none
      → (t' : Table A) × (Tables.add_object granted new.stale_chars t ≡ some (true, t'))
        × Returns
            (λ r g. (r.0 ≡ new.chars) × Represents g r.1 (cells ++ cell_of new ∷ []) t')
            (Methods.add_object new l h)
  unfolding Tables.add_object add_whole
  add_object-Represents h new l cells t rep object_ok chars_ok fo fc = (
    record t { items = t.items ++ new.stale_chars ∷ [] },
    simp (rep.whole),
    Returns-mono (Methods.add_object new l h)
        (add_object-append h new l cells rep.listed object_ok chars_ok fo fc)
        λ r g added. (
          added.result,
          record {
            listed = added.listed;
            items =
                ap (λ (xs : List A). xs ++ new.stale_chars ∷ []) rep.items
                ∙ sym (values-append cells (cell_of new));
            whole = rep.whole;
            cursor =
                CursorAt-append cells (cell_of new ∷ []) t.cursor l.current r.1.current added.cursor
                  rep.cursor;
          },
        ),
  )

  pub list_rewind-Represents :
      (h : Heap A) (l : ObjectList) (cells : List (Cell A)) (t : Table A)
      → Represents h l cells t
      → Represents h (Methods.list_rewind l) cells (Tables.list_rewind t)
  unfolding Methods.list_rewind Tables.list_rewind
  list_rewind-Represents h l cells t rep = record {
    listed = record {
      first_is = rep.listed.first_is;
      last_is = rep.listed.last_is;
      chain = rep.listed.chain;
    };
    items = rep.items;
    whole = rep.whole;
    cursor = refl;
  }

  -- The outcome of get_object.
  pub record Got (h : Heap A) (cells : List (Cell A)) (o : Option A) (t' : Table A)
      (r : Ptr × ObjectList) (g : Heap A) : Type 0 where
    pub pointer : Points h r.0 o
    pub represents : Represents h r.1 cells t'
    pub heap_same : g ≡ h

  step_to-none :
      (i : ℕ) (t : Table A)
      → get_elem? t.items i ≡ none
      → step_to i t ≡ some (none, record t { cursor = rewound })
  unfolding step_to
  step_to-none i t e = rw (e, step_to)

  step_to-some :
      (i : ℕ) (t : Table A) (x : A)
      → get_elem? t.items i ≡ some x
      → step_to i t ≡ some (some x, record t { cursor = on i })
  unfolding step_to
  step_to-some i t x e = rw (e, step_to)

  -- Going to the cell `i` from the list `l`.
  step_to-Got :
      (h : Heap A) (l : ObjectList) (cells : List (Cell A)) (t : Table A) (i : ℕ)
      → Represents h l cells t
      → (o : Option A) × (t' : Table A) × (step_to i t ≡ some (o, t'))
        × Got h cells o t'
            (chars_of (get_elem? cells i), record l { current = object_of (get_elem? cells i) })
            h
  step_to-Got h l cells t i rep = elim (Option-cases (get_elem? cells i)) [
    | inl out ↦ (
      none,
      record t { cursor = rewound },
      step_to-none i t
          (ap (λ (xs : List A). get_elem? xs i) rep.items ∙ get_elem?-values-none cells i out),
      simp out (record {
        pointer = refl;
        represents = record {
          listed = record {
            first_is = rep.listed.first_is;
            last_is = rep.listed.last_is;
            chain = rep.listed.chain;
          };
          items = rep.items;
          whole = rep.whole;
          cursor = refl;
        };
        heap_same = refl;
      }),
    )
    | inr (c, at) ↦
        let (before, held) = Chain-at h null cells i c rep.listed.chain at in
        (
          some c.value,
          record t { cursor = on i },
          step_to-some i t c.value
              (ap (λ (xs : List A). get_elem? xs i) rep.items ∙ get_elem?-values cells i c at),
          simp at (record {
            pointer = (held.chars_ne, held.value_at);
            represents = record {
              listed = record {
                first_is = rep.listed.first_is;
                last_is = rep.listed.last_is;
                chain = rep.listed.chain;
              };
              items = rep.items;
              whole = rep.whole;
              cursor = (c, at, refl);
            };
            heap_same = refl;
          }),
        )
  ]

  abbrev fetched : List (Cell A) → ℕ → ObjectList → Ptr × ObjectList
  fetched cells i l =
      (chars_of (get_elem? cells i), record l { current = object_of (get_elem? cells i) })

  get_first :
      (h : Heap A) (l : ObjectList) (cells : List (Cell A))
      → IsList h l cells
      → l.current ≡ null
      → Methods.get_object l h ≡ some (fetched cells 0 l, h)
  unfolding Methods.get_object
  get_first h l cells is start =
      let first : l.first ≡ object_of (get_elem? cells 0) = is.first_is ∙ head_of-first cells in
      simp (start, first, current_object-at h cells 0 is.chain)

  get_next :
      (h : Heap A) (l : ObjectList) (cells : List (Cell A)) (i : ℕ) (c : Cell A)
      → IsList h l cells
      → get_elem? cells i ≡ some c
      → l.current ≡ c.object
      → Methods.get_object l h ≡ some (fetched cells (suc i) l, h)
  unfolding Methods.get_object
  get_next h l cells i c is at here =
      let (before, held) = Chain-at h null cells i c is.chain at in
      simp (here, object_not_null held, load-Holds held)
        (simp (current_object-at h cells (suc i) is.chain))

  get_by :
      (h : Heap A) (l : ObjectList) (cells : List (Cell A)) (t : Table A) (k : Cursor)
      → IsList h l cells
      → CursorAt cells k l.current
      → k ≢ dangling
      → (i : ℕ) × (get_whole k t ≡ step_to i t)
        × (Methods.get_object l h ≡ some (fetched cells i l, h))
  unfolding get_whole
  get_by h l cells t rewound is at sound = (0, refl, get_first h l cells is at)
  get_by h l cells t (on i) is (c, at, here) sound =
      (suc i, refl, get_next h l cells i c is at here)
  get_by h l cells t dangling is at sound = elim (sound refl) [ ]

  -- `get_object` on a list whose cursor does not dangle ends without undefined behaviour, leaves the
  -- heap as it was, and agrees with the abstract `get_object`: it returns null where that finds no
  -- object, else a pointer to the value that it finds, and the cursors agree again.
  -- get
  pub get_object-Represents :
      (h : Heap A) (l : ObjectList) (cells : List (Cell A)) (t : Table A)
      → Represents h l cells t
      → t.cursor ≢ dangling
      → (o : Option A) × (t' : Table A) × (Tables.get_object t ≡ some (o, t'))
        × Returns (Got h cells o t') (Methods.get_object l h)
  unfolding Tables.get_object
  get_object-Represents h l cells t rep sound =
      let (i, table, heap) = get_by h l cells t t.cursor rep.listed rep.cursor sound in
      let (o, t', ran, got) = step_to-Got h l cells t i rep in
      (o, t', simp (rep.whole) (table ∙ ran), rw heap got)

  CursorAt-freed :
      (cells : List (Cell A)) (t : Table A) (k : Cursor) (p q : Ptr)
      → t.broken ≡ false
      → t.items ≡ values cells
      → t.cursor ≡ k
      → q ≡ p
      → CursorAt cells k p
      → CursorAt {A = A} [] (Tables.free_list t).cursor q
  unfolding Tables.free_list left_behind
  CursorAt-freed [] t rewound p q whole items e same at = simp (whole, items, e) (same ∙ at)
  CursorAt-freed [] t (on i) p q whole items e same (c, at, here) = let no : ⊥ = cc in elim no [ ]
  CursorAt-freed [] t dangling p q whole items e same at = simp (whole, items, e) tt
  CursorAt-freed (c ∷ cs) t rewound p q whole items e same at = simp (whole, items, e) (same ∙ at)
  CursorAt-freed (c ∷ cs) t (on i) p q whole items e same at = simp (whole, items, e) tt
  CursorAt-freed (c ∷ cs) t dangling p q whole items e same at = simp (whole, items, e) tt

  free_list-items :
      (cells : List (Cell A)) (t : Table A)
      → t.broken ≡ false
      → t.items ≡ values cells
      → ((Tables.free_list t).items ≡ []) × ((Tables.free_list t).broken ≡ false)
  unfolding Tables.free_list
  free_list-items [] t whole items = simp (whole, items) (refl, refl)
  free_list-items (c ∷ cs) t whole items = simp (whole, items) (refl, refl)

  -- `free_list`, with more fuel than cells, ends without undefined behaviour, and the list it leaves
  -- stands for the table after the abstract `free_list`.
  pub free_list-Represents :
      (fuel : ℕ) (h : Heap A) (l : ObjectList) (cells : List (Cell A)) (t : Table A)
      → Represents h l cells t
      → length cells < fuel
      → Returns (λ r g. Represents g r.1 [] (Tables.free_list t)) (Methods.free_list fuel l h)
  free_list-Represents fuel h l cells t rep less =
      Returns-mono (Methods.free_list fuel l h) (free_list-Emptied fuel h l cells rep.listed less)
        λ r g emptied. record {
          listed = emptied.listed;
          items = (free_list-items cells t rep.whole rep.items).0;
          whole = (free_list-items cells t rep.whole rep.items).1;
          cursor =
              CursorAt-freed cells t t.cursor l.current r.1.current rep.whole rep.items refl
                emptied.cursor rep.cursor;
        }
