-- ===== src/Table/Failures.antt =====
-- `add_object` over the heap against the abstract one, for every outcome of the allocations.
use daim.Prelude.{
  ◌≡◌, ◌≢◌, arith, refl, sym, inl, inr, Bool, true, false, some, none, List, [], ◌∷◌, ◌++◌, ◌==◌,
  if◌then◌else◌, Bool-cases, ==_iff,
}
use mathlib.Core.Path.{subst}
use daim.Linked.Heap.{Ptr, null, Heap, Returns, Returns-mono}
use daim.Linked.Ops as Methods
use daim.Linked.Ops.{ObjectList, Allocation}
use daim.Linked.Chain.{Cell, IsList}
use daim.Linked.Add.{cell_of}
use daim.Linked.Fail.{no_object, add_object-Refused}
use daim.Table.Ops as Tables
use daim.Table.Ops.{Table, Grant, granted, no_chars, add_whole}
use daim.Table.Represents.{values, Represents}
use daim.Table.Refines.{add_object-Represents}

module _ {A : Type 0} where
  -- What the two allocations come to.
  abbrev pub grant_of : Allocation A → Grant
  grant_of new =
      if new.object == null
      then Tables.no_object
      else if new.chars == null
      then no_chars
      else granted

  -- Memory that is granted is not in use.
  pub record Fresh (h : Heap A) (new : Allocation A) : Type 0 where
    pub object_fresh : new.object ≢ null → h.nodes new.object ≡ none
    pub chars_fresh : new.chars ≢ null → h.payloads new.chars ≡ none

  abbrev pub cells_after : Grant → List (Cell A) → Allocation A → List (Cell A)
  cells_after granted cells new = cells ++ cell_of new ∷ []
  cells_after Tables.no_object cells new = cells
  cells_after no_chars cells new = cells

  -- The pointer that is returned for an object that was added, and for one that was not.
  abbrev pub answer : Bool → Allocation A → Ptr
  answer true new = new.chars
  answer false new = null

  -- The abstract `add_object` gives `b` and `t'`, and the one over the heap does what they say.
  abbrev pub Implements : Heap A → Allocation A → ObjectList → List (Cell A) → Table A → Type 0
  Implements h new l cells t =
      (b : Bool) × (t' : Table A) × (Tables.add_object (grant_of new) new.stale_chars t
        ≡ some (b, t'))
      × Returns
          (λ r g. (r.0 ≡ answer b new) × Represents g r.1 (cells_after (grant_of new) cells new) t')
          (Methods.add_object new l h)

  Represents-same :
      (g : Heap A) (l l' : ObjectList) (h : Heap A) (cells : List (Cell A)) (t : Table A)
      → l' ≡ l
      → IsList g l cells
      → Represents h l cells t
      → Represents g l' cells t
  Represents-same g l l' h cells t same listed rep =
      subst (λ (k : ObjectList). Represents g k cells t) (sym same)
        (record { listed = listed; items = rep.items; whole = rep.whole; cursor = rep.cursor })

  break_table-items :
      (x : A) (xs : List A) (t : Table A) → t.items ≡ x ∷ xs → Tables.break_table t ≡ t
  unfolding Tables.break_table
  break_table-items x xs t e = rw e refl

  no_object-same :
      (stale : A) (t : Table A)
      → t.broken ≡ false
      → Tables.add_object Tables.no_object stale t ≡ some (false, t)
  unfolding Tables.add_object add_whole
  no_object-same stale t whole = simp whole

  no_chars-same :
      (stale x : A) (xs : List A) (t : Table A)
      → t.broken ≡ false
      → t.items ≡ x ∷ xs
      → Tables.add_object no_chars stale t ≡ some (false, t)
  unfolding Tables.add_object add_whole
  no_chars-same stale x xs t whole items = simp (whole, break_table-items x xs t items)

  granted-Implements :
      (h : Heap A) (new : Allocation A) (l : ObjectList) (cells : List (Cell A)) (t : Table A)
      → Represents h l cells t
      → Fresh h new
      → (new.object == null) ≡ false
      → (new.chars == null) ≡ false
      → Implements h new l cells t
  granted-Implements h new l cells t rep fresh on cn =
      let object_ok : new.object ≢ null = λ e. ground arith in
      let chars_ok : new.chars ≢ null = λ e. ground arith in
      let (t', abs, runs) =
        add_object-Represents h new l cells t rep object_ok chars_ok (fresh.object_fresh object_ok)
          (fresh.chars_fresh chars_ok) in
      rw (on, cn) (true, t', abs, runs)

  no_object-Implements :
      (h : Heap A) (new : Allocation A) (l : ObjectList) (cells : List (Cell A)) (t : Table A)
      → Represents h l cells t
      → (new.object == null) ≡ true
      → Implements h new l cells t
  no_object-Implements h new l cells t rep on =
      rw (on, no_object h new l ((==_iff new.object null).0 on))
        (false, t, no_object-same new.stale_chars t rep.whole, (refl, rep))

  no_chars-Implements :
      (h : Heap A) (new : Allocation A) (l : ObjectList) (d : Cell A) (ds : List (Cell A))
      (t : Table A)
      → Represents h l (d ∷ ds) t
      → Fresh h new
      → (new.object == null) ≡ false
      → (new.chars == null) ≡ true
      → Implements h new l (d ∷ ds) t
  no_chars-Implements h new l d ds t rep fresh on cn =
      let object_ok : new.object ≢ null = λ e. ground arith in
      let kept =
        add_object-Refused h new l d ds rep.listed
          (inr (object_ok, (==_iff new.chars null).0 cn, fresh.object_fresh object_ok)) in
      rw (on, cn)
        (
          false,
          t,
          no_chars-same new.stale_chars d.value (values ds) t rep.whole rep.items,
          Returns-mono (Methods.add_object new l h) kept λ r g (null_r, same, listed).
              (null_r, Represents-same g l r.1 h (d ∷ ds) t same listed rep),
        )

  half_granted :
      (h : Heap A) (new : Allocation A) (l : ObjectList) (cells : List (Cell A)) (t : Table A)
      → Represents h l cells t
      → Fresh h new
      → (grant_of new ≡ no_chars → cells ≢ [])
      → (new.object == null) ≡ false
      → (new.chars == null) ≡ true
      → Implements h new l cells t
  half_granted h new l [] t rep fresh room on cn = elim (room (rw (on, cn) refl) refl) [ ]
  half_granted h new l (d ∷ ds) t rep fresh room on cn =
      no_chars-Implements h new l d ds t rep fresh on cn

  -- Whatever the two allocations come to, `add_object` over the heap ends without undefined behaviour
  -- and implements the abstract `add_object`: it returns the new payload where that adds an object and
  -- null where it does not, and the list stands for the table that the abstract operation leaves.
  -- Memory that is granted has to be fresh, and where only the second allocation fails the list must
  -- not be empty.
  pub add_object-Implements :
      (h : Heap A) (new : Allocation A) (l : ObjectList) (cells : List (Cell A)) (t : Table A)
      → Represents h l cells t
      → Fresh h new
      → (grant_of new ≡ no_chars → cells ≢ [])
      → Implements h new l cells t
  add_object-Implements h new l cells t rep fresh room = elim (Bool-cases (new.object == null)) [
    | inl on ↦ no_object-Implements h new l cells t rep on
    | inr on ↦ elim (Bool-cases (new.chars == null)) [
      | inl cn ↦ half_granted h new l cells t rep fresh room on cn
      | inr cn ↦ granted-Implements h new l cells t rep fresh on cn
    ]
  ]
