-- ===== src/Linked/Ops.antt =====
-- The methods of `object_list`. The object is a record; a method returns the new one.
use daim.Prelude.{
  ℕ, zero, suc, ◌+◌, ◌-◌, ◌%◌, ◌^◌, Bool, true, false, ◌&&◌, Option, none, some, ◌==◌,
  if◌then◌else◌,
}
use daim.Linked.Heap.{
  Ptr, null, Node, Cmd, pure, ◌>>=◌, ◌>>◌, load, put_node, put_payload, set_p, set_next, set_prev,
  delete_node, load_payload, delete_payload,
}

pub record ObjectList : Type 0 where
  pub first : Ptr
  pub current : Ptr
  pub last : Ptr
  pub size_of_object : ℕ

-- `object_list::object_list`.
abbrev pub object_list : ObjectList
object_list = record { first = null; current = null; last = null; size_of_object = 0 }

unfoldable pub set_object_size : ObjectList → ℕ → ObjectList
set_object_size l s = record l { size_of_object = s }

unfoldable pub get_object_size : ObjectList → ℕ
get_object_size l = l.size_of_object

unfoldable pub list_rewind : ObjectList → ObjectList
list_rewind l = record l { current = null }

-- What the two `new(nothrow)` of `add_object` return, `null` on failure, and what the memory that
-- they return holds before it is written.
pub record Allocation (A : Type 0) : Type 0 where
  pub object : Ptr
  pub chars : Ptr
  pub stale_object : Node
  pub stale_chars : A

module _ {A : Type 0} where
  -- The branch of `add_object` for an empty list.
  unfoldable pub add_first : Allocation A → ObjectList → Cmd A (Ptr × ObjectList)
  unfolding set_p set_next set_prev
  add_first new l = if new.object == null then pure (null, l) else do
    put_node new.object (some new.stale_object)
    set_p new.object new.chars
    if new.chars == null then pure (null, record l { first = new.object }) else do
      put_payload new.chars (some new.stale_chars)
      set_prev new.object null
      set_next new.object null
      pure (new.chars, record l { first = new.object; last = new.object })

  -- The branch of `add_object` for a list that has a first node.
  unfoldable pub add_last : Allocation A → ObjectList → Cmd A (Ptr × ObjectList)
  unfolding set_p set_next set_prev
  add_last new l = if new.object == null then pure (null, l) else do
    put_node new.object (some new.stale_object)
    set_p new.object new.chars
    if new.chars == null then pure (null, l) else do
      put_payload new.chars (some new.stale_chars)
      set_prev new.object l.last
      set_next new.object null
      set_next l.last new.object
      pure (new.chars, record l { last = new.object })

  unfoldable pub add_object : Allocation A → ObjectList → Cmd A (Ptr × ObjectList)
  unfolding add_first add_last
  add_object new l = if l.first == null then add_first new l else add_last new l

  -- The loop of `get_list_size`; `none` also where the fuel runs out.
  unfoldable pub size_loop : ℕ → (tmp : Ptr) → (s : ℕ) → Cmd A ℕ
  size_loop zero tmp s = λ h. none
  size_loop (suc fuel) tmp s =
      if tmp == null then pure s else do n ← load tmp; size_loop fuel n.next ((s + 1) % 2 ^ 32)

  -- `-1` becomes 2 ^ 32 - 1 in the `uint32_t` that the method returns.
  unfoldable pub get_list_size : ℕ → ObjectList → Cmd A ℕ
  get_list_size fuel l = if l.first == null then pure (2 ^ 32 - 1) else size_loop fuel l.first 0

  -- The loop of `free_list`.
  unfoldable pub free_loop : ℕ → (tmp : Ptr) → (count : ℕ) → Cmd A ℕ
  unfolding set_prev set_next delete_payload delete_node
  free_loop zero tmp count = λ h. none
  free_loop (suc fuel) tmp count = if tmp == null then pure count else do
    n ← load tmp
    set_prev tmp null
    set_next tmp null
    delete_payload n.p
    delete_node tmp
    free_loop fuel n.prev (count + 1)

  -- `none` in the result stands for the `-1` of an empty list. `current` is left as it was.
  unfoldable pub free_list : ℕ → ObjectList → Cmd A (Option ℕ × ObjectList)
  unfolding free_loop
  free_list fuel l = if l.last == null then pure (none, l) else do
    count ← free_loop fuel l.last 0
    pure (some count, record l { last = null; first = null })

  -- `current->p`, or `NULL`.
  unfoldable pub current_object : Ptr → Cmd A Ptr
  current_object a = if a == null then pure null else do n ← load a; pure n.p

  unfoldable pub get_object : ObjectList → Cmd A (Ptr × ObjectList)
  get_object l =
      if l.current == null
      then (do p ← current_object l.first; pure (p, record l { current = l.first }))
      else (do
        n ← load l.current
        p ← current_object n.next
        pure (p, record l { current = n.next }))

  -- The body of `remove_object` once `memcmp` has found the node `tmp`: its four cases.
  unfoldable pub unlink : (tmp : Ptr) → Node → ObjectList → Cmd A ObjectList
  unfolding set_next set_prev delete_payload delete_node
  unlink tmp n l =
      let clear : Cmd A (Unit {0}) = (do
        set_next tmp null
        set_prev tmp null
        delete_payload n.p
        delete_node tmp) in
      if (tmp == l.first) && (tmp == l.last)
      then (do clear; pure (record l { first = null; last = null }))
      else if tmp == l.first
      then (do set_prev n.next null; clear; pure (record l { first = n.next }))
      else if tmp == l.last
      then (do set_next n.prev null; clear; pure (record l { last = n.prev }))
      else (do set_prev n.next n.prev; set_next n.prev n.next; clear; pure l)

  -- `same` is `memcmp (tmp->p, ob, size_of_object) == 0` for the object `ob`.
  unfoldable pub remove_loop : (same : A → Bool) → ℕ → (tmp : Ptr) → ObjectList → Cmd A ObjectList
  unfolding load load_payload unlink
  remove_loop same zero tmp l = λ h. none
  remove_loop same (suc fuel) tmp l = if tmp == null then pure l else do
    n ← load tmp
    x ← load_payload n.p
    if same x then unlink tmp n l else remove_loop same fuel n.next l

  -- `false` in the result stands for the `-1` of an empty list, `true` for 0.
  unfoldable pub remove_object : (same : A → Bool) → ℕ → ObjectList → Cmd A (Bool × ObjectList)
  unfolding remove_loop
  remove_object same fuel l =
      if l.first == null
      then pure (false, l)
      else do l' ← remove_loop same fuel l.first l; pure (true, l')
