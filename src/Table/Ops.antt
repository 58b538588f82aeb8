-- ===== src/Table/Ops.antt =====
-- An `object_list` as a table of objects. `Linked` has the methods over the heap; these say what
-- they do to the objects, with the cases that have no defined behaviour as `none`.
use daim.Prelude.{
  ℕ, suc, Bool, true, false, Option, none, some, List, [], ◌∷◌, ◌++◌, get_elem?, if◌then◌else◌,
}

-- `current`: `NULL`, on an object, or left behind at one that has been freed.
pub data Cursor : Type 0 where
  rewound : Cursor
  on : ℕ → Cursor
  dangling : Cursor

-- `broken`: the second allocation of the first `add_object` failed, so that `first` is set and
-- `last` is not.
pub record Table (A : Type 0) : Type 0 where
  pub items : List A
  pub cursor : Cursor
  pub broken : Bool

-- What becomes of the cursor when the objects are freed: `free_list` does not reset it.
unfoldable pub left_behind : Cursor → Cursor
left_behind rewound = rewound
left_behind _ = dangling

-- What the two allocations of one `add_object` come to.
pub data Grant : Type 0 where
  granted no_object no_chars : Grant

module _ {A : Type 0} where
  abbrev pub empty_table : Table A
  empty_table = record { items = []; cursor = rewound; broken = false }

  unfoldable pub add_broken : Grant → Table A → Option (Bool × Table A)
  add_broken granted t = none
  add_broken no_object t = some (false, t)
  add_broken no_chars t = some (false, t)

  -- Whether the two allocations leave a broken table: only if it was empty.
  unfoldable pub break_table : Table A → Table A
  break_table t = elim (t.items) [ [] ↦ record t { broken = true } | x ∷ xs ↦ t ]

  unfoldable pub add_whole : Grant → A → Table A → Option (Bool × Table A)
  unfolding break_table
  add_whole granted x t = some (true, record t { items = t.items ++ x ∷ [] })
  add_whole no_object x t = some (false, t)
  add_whole no_chars x t = some (false, break_table t)

  -- `add_object`, and the stores of the caller to the new object where there is one.
  unfoldable pub add_object : Grant → A → Table A → Option (Bool × Table A)
  unfolding add_broken add_whole
  add_object g x t = if t.broken then add_broken g t else add_whole g x t

  unfoldable pub step_to : ℕ → Table A → Option (Option A × Table A)
  step_to i t = elim (get_elem? t.items i) [
    | none ↦ some (none, record t { cursor = rewound })
    | some x ↦ some (some x, record t { cursor = on i })
  ]

  unfoldable pub get_whole : Cursor → Table A → Option (Option A × Table A)
  unfolding step_to
  get_whole rewound t = step_to 0 t
  get_whole (on i) t = step_to (suc i) t
  get_whole dangling t = none

  unfoldable pub get_broken : Cursor → Table A → Option (Option A × Table A)
  get_broken rewound t = some (none, record t { cursor = on 0 })
  get_broken (on i) t = none
  get_broken dangling t = none

  unfoldable pub get_object : Table A → Option (Option A × Table A)
  unfolding get_whole get_broken
  get_object t = if t.broken then get_broken t.cursor t else get_whole t.cursor t

  unfoldable pub list_rewind : Table A → Table A
  list_rewind t = record t { cursor = rewound }

  -- `last` is `NULL` in a broken table, so that nothing is freed.
  unfoldable pub free_list : Table A → Table A
  unfolding left_behind
  free_list t = if t.broken then t else elim (t.items) [
    | [] ↦ t
    | x ∷ xs ↦ record { items = []; cursor = left_behind t.cursor; broken = false }
  ]
