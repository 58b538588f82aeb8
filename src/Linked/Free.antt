-- ===== src/Linked/Free.antt =====
-- `free_list`: it goes from the last node backwards.
use daim.Prelude.{
  ℕ, zero, suc, ◌+◌, ◌<◌, ◌≡◌, ◌≢◌, refl, sym, ap, ◌∙◌, true, false, ◌||◌, List, [], ◌∷◌, arith,
  ◌==◌, Option, some, none, length, eq_ne, eq_self, reverse_aux,
}
use daim.Linked.Heap.{Ptr, null, node, Heap, write, Returns, Returns-mono, load}
use daim.Linked.Ops.{ObjectList, free_loop, free_list, get_object}
use daim.Linked.Chain.{
  Cell, has_object, has_chars, head_of, last_of, Holds, Chain, IsList, object_not_null,
  chars_not_null,
}

module _ {A : Type 0} where
  -- The cells, last first, as the `prev` pointers link them.
  abbrev Back : Heap A → List (Cell A) → Type 0
  Back h [] = Unit {0}
  Back h (c ∷ rs) =
      ((next : Ptr) × Holds h (head_of rs) next c)
      × (has_object c.object rs ≡ false)
      × (has_chars c.chars rs ≡ false)
      × Back h rs

  Back-frame :
      {h g : Heap A} (rs : List (Cell A))
      → ((a : Ptr) → has_object a rs ≡ true → g.nodes a ≡ h.nodes a)
      → ((a : Ptr) → has_chars a rs ≡ true → g.payloads a ≡ h.payloads a)
      → Back h rs
      → Back g rs
  Back-frame [] on op b = tt
  Back-frame (c ∷ rs) on op ((next, held), out, pout, b) = (
    (
      next,
      record {
        object_ne = held.object_ne;
        chars_ne = held.chars_ne;
        node_at = ground (arith, on c.object, held.node_at);
        value_at = ground (arith, op c.chars, held.value_at);
      },
    ),
    out,
    pout,
    Back-frame rs (λ a i. on a (ground arith)) (λ a i. op a (ground arith)) b,
  )

  -- The chain `cs` in front of the cells that have been turned round already.
  Chain-Back :
      (h : Heap A) (cs rs : List (Cell A))
      → Chain h (head_of rs) cs
      → Back h rs
      → ((a : Ptr) → has_object a cs ≡ true → has_object a rs ≡ false)
      → ((a : Ptr) → has_chars a cs ≡ true → has_chars a rs ≡ false)
      → Back h (reverse_aux cs rs)
  Chain-Back h [] rs ch b oa ca = b
  Chain-Back h (c ∷ cs) rs (held, out, pout, ch) b oa ca =
      Chain-Back h cs (c ∷ rs) ch
        ((_, held), oa c.object (ground arith), ca c.chars (ground arith), b)
        (λ a i. ground (arith, oa a)) (λ a i. ground (arith, ca a))

  head_of-reverse_aux :
      (cs rs : List (Cell A)) → head_of (reverse_aux cs rs) ≡ last_of (head_of rs) cs
  head_of-reverse_aux [] rs = refl
  head_of-reverse_aux (c ∷ cs) rs = head_of-reverse_aux cs (c ∷ rs)

  -- Every cell's node and payload have been given back, and nothing else has changed.
  pub record Freed (cells : List (Cell A)) (h g : Heap A) : Type 0 where
    pub nodes_freed : (a : Ptr) → has_object a cells ≡ true → g.nodes a ≡ none
    pub payloads_freed : (a : Ptr) → has_chars a cells ≡ true → g.payloads a ≡ none
    pub nodes_kept : (a : Ptr) → has_object a cells ≡ false → g.nodes a ≡ h.nodes a
    pub payloads_kept : (a : Ptr) → has_chars a cells ≡ false → g.payloads a ≡ h.payloads a

  -- The heap after one round of the loop.
  record Round (c : Cell A) (h g : Heap A) : Type 0 where
    node_gone : g.nodes c.object ≡ none
    chars_gone : g.payloads c.chars ≡ none
    nodes_same : (a : Ptr) → a ≢ c.object → g.nodes a ≡ h.nodes a
    payloads_same : (a : Ptr) → a ≢ c.chars → g.payloads a ≡ h.payloads a

  abbrev cleared : Heap A → Cell A → Ptr → Heap A
  cleared h c next = record {
    nodes =
        write
          (write (write h.nodes c.object (some (node c.chars next null))) c.object
            (some (node c.chars null null)))
          c.object none;
    payloads = write h.payloads c.chars none;
  }

  cleared-Round : (h : Heap A) (c : Cell A) (next : Ptr) → Round c h (cleared h c next)
  unfolding write
  cleared-Round h c next = record {
    node_gone = ground arith;
    chars_gone = ground arith;
    nodes_same = λ a ne. ground arith;
    payloads_same = λ a ne. ground arith;
  }

  free_round :
      (fuel count : ℕ) (h : Heap A) (prev next : Ptr) (c : Cell A)
      → Holds h prev next c
      → free_loop (suc fuel) c.object count h ≡ free_loop fuel prev (count + 1) (cleared h c next)
  unfolding free_loop load write
  free_round fuel count h prev next c held =
      simp (object_not_null held, chars_not_null held, held.node_at, held.value_at, eq_self)

  Freed-cons :
      (c : Cell A) (rs : List (Cell A)) (h g k : Heap A)
      → Round c h g
      → has_object c.object rs ≡ false
      → has_chars c.chars rs ≡ false
      → Freed rs g k
      → Freed (c ∷ rs) h k
  Freed-cons c rs h g k round out pout freed = record {
    nodes_freed = λ a i. ground (arith, freed.nodes_freed a, freed.nodes_kept a, round.node_gone);
    payloads_freed =
        λ a i. ground (arith, freed.payloads_freed a, freed.payloads_kept a, round.chars_gone);
    nodes_kept = λ a o. ground (arith, freed.nodes_kept a, round.nodes_same a);
    payloads_kept = λ a o. ground (arith, freed.payloads_kept a, round.payloads_same a);
  }

  free_loop-Freed :
      (fuel count : ℕ) (h : Heap A) (rs : List (Cell A))
      → Back h rs
      → length rs < fuel
      → (g : Heap A) × (free_loop fuel (head_of rs) count h ≡ some (count + length rs, g))
        × Freed rs h g
  unfolding free_loop
  free_loop-Freed zero count h rs b lt = absurd (omega arith)
  free_loop-Freed (suc fuel) count h [] b lt = (
    h,
    ap (λ (n : ℕ). some (n, h)) (omega arith),
    record {
      nodes_freed = λ a i. cc;
      payloads_freed = λ a i. cc;
      nodes_kept = λ a o. refl;
      payloads_kept = λ a o. refl;
    },
  )
  free_loop-Freed (suc fuel) count h (c ∷ rs) ((next, held), out, pout, b) lt =
      let round = cleared-Round h c next in
      let b' =
        Back-frame {g = cleared h c next} rs (λ a i. round.nodes_same a (ground arith))
          (λ a i. round.payloads_same a (ground arith)) b in
      let (g, ran, freed) =
        free_loop-Freed fuel (count + 1) (cleared h c next) rs b' (omega arith) in
      (
        g,
        free_round fuel count h (head_of rs) next c held
            ∙ ran
            ∙ ap (λ (n : ℕ). some (n, g)) (omega arith),
        Freed-cons c rs h (cleared h c next) g round out pout freed,
      )

  has_object-reverse_aux :
      (a : Ptr) (cs rs : List (Cell A))
      → has_object a (reverse_aux cs rs) ≡ (has_object a cs || has_object a rs)
  has_object-reverse_aux a [] rs = refl
  has_object-reverse_aux a (c ∷ cs) rs = ground (arith, has_object-reverse_aux a cs (c ∷ rs))

  has_chars-reverse_aux :
      (a : Ptr) (cs rs : List (Cell A))
      → has_chars a (reverse_aux cs rs) ≡ (has_chars a cs || has_chars a rs)
  has_chars-reverse_aux a [] rs = refl
  has_chars-reverse_aux a (c ∷ cs) rs = ground (arith, has_chars-reverse_aux a cs (c ∷ rs))

  length-reverse_aux : (cs rs : List (Cell A)) → length (reverse_aux cs rs) ≡ length cs + length rs
  length-reverse_aux [] rs = omega arith
  length-reverse_aux (c ∷ cs) rs = omega (arith, length-reverse_aux cs (c ∷ rs))

  Freed-reverse :
      (cells : List (Cell A)) (h g : Heap A) → Freed (reverse_aux cells []) h g → Freed cells h g
  Freed-reverse cells h g freed = record {
    nodes_freed = λ a i. ground (arith, freed.nodes_freed a, has_object-reverse_aux a cells []);
    payloads_freed =
        λ a i. ground (arith, freed.payloads_freed a, has_chars-reverse_aux a cells []);
    nodes_kept = λ a o. ground (arith, freed.nodes_kept a, has_object-reverse_aux a cells []);
    payloads_kept = λ a o. ground (arith, freed.payloads_kept a, has_chars-reverse_aux a cells []);
  }

  last_of-ne_null :
      (h : Heap A) (prev : Ptr) (c : Cell A) (cs : List (Cell A))
      → Chain h prev (c ∷ cs)
      → last_of prev (c ∷ cs) ≢ null
  last_of-ne_null h prev c [] ch = ch.0.object_ne
  last_of-ne_null h prev c (d ∷ ds) ch = last_of-ne_null h c.object d ds ch.3

  -- The count that `free_list` reports, `none` for its `-1`.
  abbrev pub freed_count : List (Cell A) → Option ℕ
  freed_count [] = none
  freed_count (c ∷ cs) = some (length (c ∷ cs))

  pub record Emptied (h : Heap A) (l : ObjectList) (cells : List (Cell A))
      (r : Option ℕ × ObjectList) (g : Heap A) : Type 0 where
    pub count : r.0 ≡ freed_count cells
    pub listed : IsList g r.1 []
    pub cursor : r.1.current ≡ l.current
    pub freed : Freed cells h g

  -- `free_list` gives back every node and payload of the list and nothing else, reports how many
  -- (-1 for an empty list), and leaves an empty list. The cursor stays where it was.
  pub free_list-Emptied :
      (fuel : ℕ) (h : Heap A) (l : ObjectList) (cells : List (Cell A))
      → IsList h l cells
      → length cells < fuel
      → Returns (Emptied h l cells) (free_list fuel l h)
  unfolding free_list
  free_list-Emptied fuel h l [] is lt = simp is.last_is (record {
    count = refl;
    listed = record { first_is = is.first_is; last_is = is.last_is; chain = tt };
    cursor = refl;
    freed = record {
      nodes_freed = λ a i. cc;
      payloads_freed = λ a i. cc;
      nodes_kept = λ a o. refl;
      payloads_kept = λ a o. refl;
    };
  })
  free_list-Emptied fuel h l (c ∷ cs) is lt =
      let back = Chain-Back h (c ∷ cs) [] is.chain tt (λ a i. refl) (λ a i. refl) in
      let (g, ran, freed) =
        free_loop-Freed fuel 0 h (reverse_aux (c ∷ cs) []) back
          (omega (arith, length-reverse_aux (c ∷ cs) [])) in
      let at : l.last ≡ head_of (reverse_aux (c ∷ cs) []) =
        is.last_is ∙ sym (head_of-reverse_aux (c ∷ cs) []) in
      let ne : (l.last == null) ≡ false =
        eq_ne _ _ (λ e. last_of-ne_null h null c cs is.chain (sym is.last_is ∙ e)) in
      let ran' : free_loop fuel l.last 0 h ≡ some (0 + length (reverse_aux (c ∷ cs) []), g) =
        ap (λ (q : Ptr). free_loop fuel q 0 h) at ∙ ran in
      simp (ne, ran')
        (record {
          count = ap (λ (n : ℕ). some n) (omega (arith, length-reverse_aux (c ∷ cs) []));
          listed = record { first_is = refl; last_is = refl; chain = tt };
          cursor = refl;
          freed = Freed-reverse (c ∷ cs) h g freed;
        })

  get_object-freed :
      (l : ObjectList) (g : Heap A)
      → l.current ≢ null
      → g.nodes l.current ≡ none
      → get_object l g ≡ none
  unfolding get_object load
  get_object-freed l g ne gone = simp (eq_ne _ _ ne, gone)

  -- A cursor that stands on a cell when the list is freed dangles: the next `get_object` reads
  -- memory that has been given back.
  pub get_object-dangling :
      (fuel : ℕ) (h : Heap A) (l : ObjectList) (cells : List (Cell A))
      → IsList h l cells
      → length cells < fuel
      → has_object l.current cells ≡ true
      → l.current ≢ null
      → Returns (λ r g. get_object r.1 g ≡ none) (free_list fuel l h)
  get_object-dangling fuel h l cells is lt on ne =
      Returns-mono (free_list fuel l h) (free_list-Emptied fuel h l cells is lt) λ r g e.
        get_object-freed r.1 g (λ z. ne (sym e.cursor ∙ z))
          (ap g.nodes e.cursor ∙ e.freed.nodes_freed l.current on)
