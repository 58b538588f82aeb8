-- ===== src/Linked/Walk.antt =====
-- `get_object` and `list_rewind`, and the loops that visit a whole list with them; `get_list_size`.
use daim.Prelude.{
  ℕ, zero, suc, ◌+◌, ◌-◌, ◌%◌, ◌^◌, ◌<◌, ◌≡◌, refl, true, List, [], ◌∷◌, map, arith, ◌==◌,
  if◌then◌else◌, some, none, ap, length, suc_not_zero,
}
use daim.Linked.Heap.{Ptr, null, Heap, Cmd, pure, ◌>>=◌}
use daim.Linked.Ops.{ObjectList, get_object, current_object, list_rewind, size_loop, get_list_size}
use daim.Linked.Chain.{Cell, head_of, Chain, IsList, load-Holds, object_not_null, chars_not_null}

module _ {A : Type 0} where
  -- The loop `p = get_object (); while (p != NULL) { ...; p = get_object (); }`, with the pointers
  -- that it goes through.
  unfoldable pub visit : ℕ → ObjectList → Cmd A (List Ptr × ObjectList)
  visit zero l = λ h. none
  visit (suc fuel) l = do
    (p, l') ← get_object l
    if p == null then pure ([], l') else do (ps, l'') ← visit fuel l'; pure (p ∷ ps, l'')

  abbrev head_chars : List (Cell A) → Ptr
  head_chars [] = null
  head_chars (c ∷ cs) = c.chars

  current_object-Chain :
      (h : Heap A) (prev : Ptr) (cs : List (Cell A))
      → Chain h prev cs
      → current_object (head_of cs) h ≡ some (head_chars cs, h)
  unfolding current_object
  current_object-Chain h prev [] ch = refl
  current_object-Chain h prev (c ∷ cs) ch = simp (object_not_null ch.0, load-Holds ch.0)

  pub get_object-first :
      (h : Heap A) (l : ObjectList) (cells : List (Cell A))
      → IsList h l cells
      → l.current ≡ null
      → get_object l h ≡ some ((head_chars cells, record l { current = head_of cells }), h)
  unfolding get_object
  get_object-first h l cells is start =
      let e : (l.current == null) ≡ true = ground (arith, start) in
      simp (e, is.first_is, current_object-Chain h null cells is.chain)

  pub get_object-next :
      (h : Heap A) (l : ObjectList) (prev : Ptr) (c : Cell A) (cs : List (Cell A))
      → Chain h prev (c ∷ cs)
      → l.current ≡ c.object
      → get_object l h ≡ some ((head_chars cs, record l { current = head_of cs }), h)
  unfolding get_object
  get_object-next h l prev c cs ch on =
      simp (on, object_not_null ch.0, load-Holds ch.0, current_object-Chain h c.object cs ch.3)

  visit-rest :
      (fuel : ℕ) (h : Heap A) (l : ObjectList) (prev : Ptr) (c : Cell A) (cs : List (Cell A))
      → Chain h prev (c ∷ cs)
      → l.current ≡ c.object
      → length cs < fuel
      → visit fuel l h ≡ some ((map (λ d. d.chars) cs, record l { current = null }), h)
  unfolding visit
  visit-rest zero h l prev c cs ch on lt = absurd (omega arith)
  visit-rest (suc fuel) h l prev c [] ch on lt = simp (get_object-next h l prev c [] ch on)
  visit-rest (suc fuel) h l prev c (d ∷ ds) ch on lt = simp (
    get_object-next h l prev c (d ∷ ds) ch on,
    chars_not_null ch.3.0,
    visit-rest fuel h (record l { current = d.object }) c.object d ds ch.3 refl (omega arith),
  )

  -- From a rewound list the loop goes through every payload once, in order, and ends with the list
  -- rewound and the heap as it was, if it has a round for each cell and one more.
  pub visit-map :
      (fuel : ℕ) (h : Heap A) (l : ObjectList) (cells : List (Cell A))
      → IsList h l cells
      → l.current ≡ null
      → length cells < fuel
      → visit fuel l h ≡ some ((map (λ d. d.chars) cells, list_rewind l), h)
  unfolding visit list_rewind
  visit-map zero h l cells is start lt = absurd (omega arith)
  visit-map (suc fuel) h l [] is start lt = simp (get_object-first h l [] is start)
  visit-map (suc fuel) h l (c ∷ cs) is start lt = simp (
    get_object-first h l (c ∷ cs) is start,
    chars_not_null is.chain.0,
    visit-rest fuel h (record l { current = c.object }) null c cs is.chain refl (omega arith),
  )

  size_loop-length :
      (fuel s : ℕ) (h : Heap A) (prev : Ptr) (cs : List (Cell A))
      → Chain h prev cs
      → length cs < fuel
      → s < 2 ^ 32
      → size_loop fuel (head_of cs) s h ≡ some ((s + length cs) % 2 ^ 32, h)
  unfolding size_loop
  size_loop-length zero s h prev cs ch lt small = absurd (omega arith)
  size_loop-length (suc fuel) s h prev [] ch lt small = ap (λ (n : ℕ). some (n, h)) (omega arith)
  size_loop-length (suc fuel) s h prev (c ∷ cs) ch lt small =
      simp
        (
          object_not_null ch.0,
          load-Holds ch.0,
          size_loop-length fuel ((s + 1) % 2 ^ 32) h c.object cs ch.3 (omega arith) (omega arith),
        )
        (ap (λ (n : ℕ). some (n, h)) (omega arith))

  -- `get_list_size` counts the cells modulo 2 ^ 32, but says 2 ^ 32 - 1 of an empty list.
  pub get_list_size-length :
      (fuel : ℕ) (h : Heap A) (l : ObjectList) (cells : List (Cell A))
      → IsList h l cells
      → length cells < fuel
      → get_list_size fuel l h
        ≡ some (if length cells == 0 then 2 ^ 32 - 1 else length cells % 2 ^ 32, h)
  unfolding get_list_size
  get_list_size-length fuel h l [] is lt = simp is.first_is
  get_list_size-length fuel h l (c ∷ cs) is lt =
      simp
        (
          is.first_is,
          object_not_null is.chain.0,
          suc_not_zero (length cs),
          size_loop-length fuel 0 h null (c ∷ cs) is.chain lt (omega arith),
        )
        (ap (λ (n : ℕ). some (n, h)) (omega arith))
