-- ===== src/Examples/Lists.antt =====
-- The lists of linked.cpp on a heap with one object.
use daim.Prelude.{ℕ, ◌≡◌, Option, refl, false, none, some, [], ◌∷◌, ◌==◌, arith, if◌then◌else◌}
use daim.Linked.Heap.{null, node, Heap, Returns}
use daim.Linked.Ops as Methods
use daim.Linked.Ops.{ObjectList, object_list, Allocation, get_list_size}
use daim.Linked.Chain.{Cell, IsList}
use daim.Linked.Free.{Emptied, free_list-Emptied, get_object-dangling}
use daim.Linked.Fail.{add_object-broken}
use daim.Table.Ops as Tables
use daim.Table.Ops.{Table, rewound, on, dangling, granted}
use daim.Table.Represents.{Represents}
use daim.Table.Failures.{Fresh, Implements, add_object-Implements}
use daim.Linked.Remove.{Removed, remove_object-Removed}
use daim.Table.Refines.{Got, get_object-Represents, free_list-Represents}

-- One object with the value 42: its node at the address 1, its bytes at 2.
abbrev one_cell : Cell ℕ
one_cell = record { object = 1; chars = 2; value = 42 }

abbrev one_heap : Heap ℕ
one_heap = record {
  nodes = λ a. if a == 1 then some (node 2 null null) else none;
  payloads = λ a. if a == 2 then some 42 else none;
}

abbrev one_list : ObjectList
one_list = record { first = 1; current = null; last = 1; size_of_object = 4 }

one_list-IsList : IsList one_heap one_list (one_cell ∷ [])
one_list-IsList = record {
  first_is = refl;
  last_is = refl;
  chain = (
    record {
      object_ne = λ e. omega arith;
      chars_ne = λ e. omega arith;
      node_at = refl;
      value_at = refl;
    },
    refl,
    refl,
    tt,
  );
}

abbrev empty_heap : Heap ℕ
empty_heap = record { nodes = λ a. none; payloads = λ a. none }

object_list-IsList : IsList empty_heap object_list []
object_list-IsList = record { first_is = refl; last_is = refl; chain = tt }

-- Fresh memory for an object, and memory of which only the node is granted.
abbrev fresh : Allocation ℕ
fresh = record { object = 3; chars = 4; stale_object = node 0 0 0; stale_chars = 7 }

abbrev half : Allocation ℕ
half = record fresh { chars = null }

abbrev one_table : Table ℕ
one_table = record { items = 42 ∷ []; cursor = rewound; broken = false }

one_list-Represents : Represents one_heap one_list (one_cell ∷ []) one_table
one_list-Represents = record { listed = one_list-IsList; items = refl; whole = refl; cursor = refl }

free_list-Emptied_example :
    Returns (Emptied one_heap one_list (one_cell ∷ [])) (Methods.free_list 2 one_list one_heap)
free_list-Emptied_example =
    free_list-Emptied 2 one_heap one_list (one_cell ∷ []) one_list-IsList (omega arith)

get_object-dangling_example :
    Returns
      (λ r g. Methods.get_object r.1 g ≡ none)
      (Methods.free_list 2 (record one_list { current = 1 }) one_heap)
get_object-dangling_example =
    get_object-dangling 2 one_heap (record one_list { current = 1 }) (one_cell ∷ [])
      (record { first_is = refl; last_is = refl; chain = one_list-IsList.chain }) (omega arith) refl
      (λ e. omega arith)

add_object-broken_example :
    Returns
      (λ r g. (r.0 ≡ null) × (Methods.add_object fresh r.1 g ≡ none))
      (Methods.add_object half object_list empty_heap)
add_object-broken_example =
    add_object-broken empty_heap half fresh object_list object_list-IsList (λ e. omega arith) refl
      (λ e. omega arith) (λ e. omega arith)

half-Fresh : Fresh one_heap half
half-Fresh = record { object_fresh = λ e. refl; chars_fresh = λ e. elim (e refl) [ ] }

add_object-Implements_example : Implements one_heap half one_list (one_cell ∷ []) one_table
add_object-Implements_example =
    add_object-Implements one_heap half one_list (one_cell ∷ []) one_table one_list-Represents
      half-Fresh (λ e f. cc)

remove_object-Removed_example :
    Returns
      (Removed one_heap one_list [] one_cell [])
      (Methods.remove_object (λ n. n == 42) 1 one_list one_heap)
remove_object-Removed_example =
    remove_object-Removed (λ n. n == 42) 1 one_heap one_list [] one_cell [] one_list-IsList tt refl
      (omega arith)

get_object-Represents_example :
    (o : Option ℕ) × (t' : Table ℕ) × (Tables.get_object one_table ≡ some (o, t'))
    × Returns (Got one_heap (one_cell ∷ []) o t') (Methods.get_object one_list one_heap)
get_object-Represents_example =
    get_object-Represents one_heap one_list (one_cell ∷ []) one_table one_list-Represents (λ e. cc)

free_list-Represents_example :
    Returns
      (λ r g. Represents g r.1 [] (Tables.free_list one_table))
      (Methods.free_list 2 one_list one_heap)
free_list-Represents_example =
    free_list-Represents 2 one_heap one_list (one_cell ∷ []) one_table one_list-Represents
      (omega arith)
