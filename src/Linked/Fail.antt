-- ===== src/Linked/Fail.antt =====
-- `add_object` where an allocation fails.
use daim.Prelude.{
  ◌≡◌, ◌≢◌, ◌⊎◌, inl, inr, refl, List, [], ◌∷◌, arith, some, none, eq_self, eq_ne, ◌==◌, true,
  false,
}
use daim.Linked.Heap.{Ptr, null, Heap, write, Returns, load}
use daim.Linked.Ops.{ObjectList, Allocation, add_first, add_last, add_object}
use daim.Linked.Chain.{Cell, IsList, Chain-frame}
use daim.Linked.Add.{has_object-fresh}

module _ {A : Type 0} where
  -- `add_object` returns `NULL` and the list still stands for the same cells.
  abbrev pub Refused : ObjectList → List (Cell A) → Ptr × ObjectList → Heap A → Type 0
  Refused l cells r g = (r.0 ≡ null) × (r.1 ≡ l) × IsList g l cells

  pub no_object :
      (h : Heap A) (new : Allocation A) (l : ObjectList)
      → new.object ≡ null
      → add_object new l h ≡ some ((null, l), h)
  unfolding add_object add_first add_last
  no_object h new l e = let z : (new.object == null) ≡ true = ground arith in ground arith

  add_last-no_chars :
      (h : Heap A) (new : Allocation A) (l : ObjectList) (d : Cell A) (ds : List (Cell A))
      → IsList h l (d ∷ ds)
      → new.object ≢ null
      → new.chars ≡ null
      → h.nodes new.object ≡ none
      → Returns (Refused l (d ∷ ds)) (add_object new l h)
  unfolding add_object add_last load write
  add_last-no_chars h new l d ds is on cn fresh =
      let e : (l.first == null) ≡ false = ground (arith, is.first_is, is.chain.0.object_ne) in
      let out = has_object-fresh h null new.object (d ∷ ds) fresh is.chain in
      let z : (new.chars == null) ≡ true = ground arith in
      simp (e, eq_ne _ _ on, z, eq_self)
        (
          refl,
          refl,
          record {
            first_is = is.first_is;
            last_is = is.last_is;
            chain =
                Chain-frame null (d ∷ ds)
                  (λ a i. let ne : a ≢ new.object = λ e. cc in simp (eq_ne a new.object ne))
                  (λ a i. refl) is.chain;
          },
        )

  -- Where `add_object` cannot allocate, it returns `NULL`, and a list that has a cell stands for
  -- the same cells as before.
  pub add_object-Refused :
      (h : Heap A) (new : Allocation A) (l : ObjectList) (d : Cell A) (ds : List (Cell A))
      → IsList h l (d ∷ ds)
      → (new.object ≡ null)
        ⊎ ((new.object ≢ null) × (new.chars ≡ null) × (h.nodes new.object ≡ none))
      → Returns (Refused l (d ∷ ds)) (add_object new l h)
  add_object-Refused h new l d ds is (inl e) = simp (no_object h new l e) (refl, refl, is)
  add_object-Refused h new l d ds is (inr (on, cn, fresh)) =
      add_last-no_chars h new l d ds is on cn fresh

  -- On an empty list the second allocation may fail after the first has been stored in `first`. The
  -- next `add_object` then goes through `last`, which is still `NULL`.
  pub add_object-broken :
      (h : Heap A) (new next : Allocation A) (l : ObjectList)
      → IsList h l []
      → new.object ≢ null
      → new.chars ≡ null
      → next.object ≢ null
      → next.chars ≢ null
      → Returns (λ r g. (r.0 ≡ null) × (add_object next r.1 g ≡ none)) (add_object new l h)
  unfolding add_object add_first add_last load write
  add_object-broken h new next l is on cn on' cn' =
      let z : (new.chars == null) ≡ true = ground arith in
      simp (is.first_is, is.last_is, eq_ne _ _ on, eq_ne _ _ on', eq_ne _ _ cn', z, eq_self)
        (refl, refl)
