-- ===== src/Table/Represents.antt =====
-- What it means that a list of linked.cpp on the heap stands for a table.
use daim.Prelude.{
  ℕ, zero, suc, ◌≡◌, ◌≢◌, refl, ap, inl, inr, false, Option, none, some, List, [], ◌∷◌, ◌++◌, map,
  get_elem?, Option-cases,
}
use mathlib.Core.Path.{subst}
use daim.Linked.Heap.{Ptr, null, Heap}
use daim.Linked.Ops.{ObjectList, current_object}
use daim.Linked.Chain.{Cell, head_of, Holds, Chain, IsList, load-Holds, object_not_null}
use daim.Table.Ops.{Table, Cursor, rewound, on, dangling}

module _ {A : Type 0} where
  abbrev pub values : List (Cell A) → List A
  values cells = map (λ (c : Cell A). c.value) cells

  -- What `current` is, where the cursor stands.
  abbrev pub CursorAt : List (Cell A) → Cursor → Ptr → Type 0
  CursorAt cells rewound p = p ≡ null
  CursorAt cells (on i) p = (c : Cell A) × (get_elem? cells i ≡ some c) × (p ≡ c.object)
  CursorAt cells dangling p = Unit {0}

  -- The list on the heap stands for the table.
  pub record Represents (h : Heap A) (l : ObjectList) (cells : List (Cell A)) (t : Table A)
      : Type 0 where
    pub listed : IsList h l cells
    pub items : t.items ≡ values cells
    pub whole : t.broken ≡ false
    pub cursor : CursorAt cells t.cursor l.current

  -- The pointer that `get_object` returns for an object, or for none.
  abbrev pub Points : Heap A → Ptr → Option A → Type 0
  Points h p none = p ≡ null
  Points h p (some x) = (p ≢ null) × (h.payloads p ≡ some x)

  abbrev pub object_of : Option (Cell A) → Ptr
  object_of none = null
  object_of (some c) = c.object

  abbrev pub chars_of : Option (Cell A) → Ptr
  chars_of none = null
  chars_of (some c) = c.chars

  abbrev pub value_of : Option (Cell A) → Option A
  value_of none = none
  value_of (some c) = some c.value

  pub head_of-first : (cells : List (Cell A)) → head_of cells ≡ object_of (get_elem? cells 0)
  head_of-first [] = refl
  head_of-first (c ∷ cs) = refl

  -- The cell at an index, with the address of the next one.
  pub Chain-at :
      (h : Heap A) (prev : Ptr) (cells : List (Cell A)) (i : ℕ) (c : Cell A)
      → Chain h prev cells
      → get_elem? cells i ≡ some c
      → (before : Ptr) × Holds h before (object_of (get_elem? cells (suc i))) c
  Chain-at h prev [] i c ch at = let no : ⊥ = cc in elim no [ ]
  Chain-at h prev (d ∷ ds) zero c ch at =
      let e : d ≡ c = cc in
      (
        prev,
        subst (λ k. Holds h prev (object_of (get_elem? ds 0)) k) e
            (subst (λ q. Holds h prev q d) (head_of-first ds) ch.0),
      )
  Chain-at h prev (d ∷ ds) (suc i) c ch at = Chain-at h d.object ds i c ch.3 at

  pub current_object-at :
      (h : Heap A) (cells : List (Cell A)) (i : ℕ)
      → Chain h null cells
      → current_object (object_of (get_elem? cells i)) h ≡ some (chars_of (get_elem? cells i), h)
  unfolding current_object
  current_object-at h cells i ch = elim (Option-cases (get_elem? cells i)) [
    | inl out ↦ simp out
    | inr (c, at) ↦
        let (before, held) = Chain-at h null cells i c ch at in
        simp (at, object_not_null held, load-Holds held)
  ]

  pub get_elem?-values :
      (cells : List (Cell A)) (i : ℕ) (c : Cell A)
      → get_elem? cells i ≡ some c
      → get_elem? (values cells) i ≡ some c.value
  get_elem?-values [] i c at = let no : ⊥ = cc in elim no [ ]
  get_elem?-values (d ∷ ds) zero c at = ap value_of at
  get_elem?-values (d ∷ ds) (suc i) c at = get_elem?-values ds i c at

  pub get_elem?-values-none :
      (cells : List (Cell A)) (i : ℕ) → get_elem? cells i ≡ none → get_elem? (values cells) i ≡ none
  get_elem?-values-none [] i at = refl
  get_elem?-values-none (d ∷ ds) zero at = let no : ⊥ = cc in elim no [ ]
  get_elem?-values-none (d ∷ ds) (suc i) at = get_elem?-values-none ds i at

  pub get_elem?-append :
      (xs ys : List (Cell A)) (i : ℕ) (c : Cell A)
      → get_elem? xs i ≡ some c
      → get_elem? (xs ++ ys) i ≡ some c
  get_elem?-append [] ys i c at = let no : ⊥ = cc in elim no [ ]
  get_elem?-append (x ∷ xs) ys zero c at = at
  get_elem?-append (x ∷ xs) ys (suc i) c at = get_elem?-append xs ys i c at
