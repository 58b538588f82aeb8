-- ===== src/Linked/Heap.antt =====
-- The heap of linked.cpp: nodes and payload buffers at addresses, and commands over them.
use daim.Prelude.{ℕ, ◌≡◌, ◌≢◌, Option, none, some, arith, ◌==◌, if◌then◌else◌}

abbrev pub Ptr : Type 0
Ptr = ℕ

abbrev pub null : Ptr
null = 0

-- `struct object`.
pub record Node : Type 0 where
  pub p : Ptr
  pub next : Ptr
  pub prev : Ptr

abbrev pub node : Ptr → Ptr → Ptr → Node
node p next prev = record { p = p; next = next; prev = prev }

-- The nodes, and the arrays that their `p` point at. `none`: nothing is allocated there.
pub record Heap (A : Type 0) : Type 0 where
  pub nodes : Ptr → Option Node
  pub payloads : Ptr → Option A

unfoldable pub write {ℓ} : {X : Type ℓ} → (Ptr → X) → Ptr → X → Ptr → X
write f a x b = if b == a then x else f b

module _ {ℓ} {X : Type ℓ} (f : Ptr → X) (a : Ptr) (x : X) where
  pub write_self : write f a x a ≡ x
  unfolding write
  write_self = ground arith

  pub write-ne : (b : Ptr) → b ≢ a → write f a x b ≡ f b
  unfolding write
  write-ne b ne = ground arith

-- A command returns `none` where the program has no defined behaviour: it goes through `NULL`, or
-- through a pointer to memory that is not allocated.
abbrev pub Cmd : Type 0 → Type 0 → Type 0
Cmd A X = Heap A → Option (X × Heap A)

module _ {A : Type 0} where
  abbrev pub pure : {X : Type 0} → X → Cmd A X
  pure x h = some (x, h)

  abbrev pub and_then : {X Y : Type 0} → Option (X × Heap A) → (X → Cmd A Y) → Option (Y × Heap A)
  and_then none k = none
  and_then (some (x, h)) k = k x h

  infixl 5 ◌>>=◌ ◌>>◌
  abbrev pub ◌>>=◌ : {X Y : Type 0} → Cmd A X → (X → Cmd A Y) → Cmd A Y
  m >>= k = λ h. and_then (m h) k

  abbrev pub ◌>>◌ : {X Y : Type 0} → Cmd A X → Cmd A Y → Cmd A Y
  m >> n = m >>= λ _. n

  unfoldable pub load : Ptr → Cmd A Node
  load a h = if a == null then none else elim (h.nodes a) [ none ↦ none | some n ↦ some (n, h) ]

  abbrev pub put_node : Ptr → Option Node → Cmd A (Unit {0})
  put_node a n h = some (tt, record h { nodes = write h.nodes a n })

  abbrev pub put_payload : Ptr → Option A → Cmd A (Unit {0})
  put_payload a x h = some (tt, record h { payloads = write h.payloads a x })

  -- `a->p = q` and so on.
  unfoldable pub set_p : Ptr → Ptr → Cmd A (Unit {0})
  unfolding load
  set_p a q = do n ← load a; put_node a (some (record n { p = q }))

  unfoldable pub set_next : Ptr → Ptr → Cmd A (Unit {0})
  unfolding load
  set_next a q = do n ← load a; put_node a (some (record n { next = q }))

  unfoldable pub set_prev : Ptr → Ptr → Cmd A (Unit {0})
  unfolding load
  set_prev a q = do n ← load a; put_node a (some (record n { prev = q }))

  -- `delete a`, and `delete [] a`. To delete `NULL` does nothing; anything else must be allocated.
  unfoldable pub delete_node : Ptr → Cmd A (Unit {0})
  unfolding load
  delete_node a = if a == null then pure tt else do load a; put_node a none

  unfoldable pub load_payload : Ptr → Cmd A A
  load_payload a h =
      if a == null then none else elim (h.payloads a) [ none ↦ none | some x ↦ some (x, h) ]

  unfoldable pub delete_payload : Ptr → Cmd A (Unit {0})
  unfolding load_payload
  delete_payload a = if a == null then pure tt else do load_payload a; put_payload a none

  -- Total correctness of a run: it has defined behaviour, and this result.
  abbrev pub Returns : {X : Type 0} → (X → Heap A → Type 0) → Option (X × Heap A) → Type 0
  Returns P none = ⊥
  Returns P (some (x, h)) = P x h

  pub Returns-mono :
      {X : Type 0} {P Q : X → Heap A → Type 0} (r : Option (X × Heap A))
      → Returns P r
      → ((x : X) (h : Heap A) → P x h → Q x h)
      → Returns Q r
  Returns-mono none bad f = bad
  Returns-mono (some (x, h)) p f = f x h p

  -- What follows a run that returns.
  pub Returns-then :
      {X Y : Type 0} {P : X → Heap A → Type 0} (Q : Y → Heap A → Type 0) (k : X → Cmd A Y)
      (r : Option (X × Heap A))
      → Returns P r
      → ((x : X) (h : Heap A) → P x h → Returns Q (k x h))
      → Returns Q (and_then r k)
  Returns-then Q k none bad next = bad
  Returns-then Q k (some (x, h)) p next = next x h p
