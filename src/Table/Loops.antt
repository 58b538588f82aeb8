-- ===== src/Table/Loops.antt =====
-- The loops of the controller over a table, and what they find.
use daim.Prelude.{
  ℕ, zero, suc, ◌+◌, ◌<◌, ◌≡◌, refl, ◌∙◌, ap, inl, inr, Bool, true, false, Option, none, some, List,
  [], ◌∷◌, length, get_elem?, arith, if◌then◌else◌, Bool-cases,
}
use daim.Table.Ops.{Table, Cursor, rewound, on, get_object, get_whole, step_to}

module _ {A : Type 0} where
  -- `while (p != NULL) { if (wanted) break; p = get_object (); }` after a first `get_object`: the
  -- object at which the loop ends, `none` for `NULL`. The outer `none` is undefined behaviour.
  unfoldable pub find_loop : ℕ → (A → Bool) → Table A → Option (Option A × Table A)
  find_loop zero wanted t = none
  find_loop (suc fuel) wanted t = elim (get_object t) [
    | none ↦ none
    | some (none, t') ↦ some (none, t')
    | some (some x, t') ↦ elim (wanted x) [
      | true ↦ some (some x, t')
      | false ↦ find_loop fuel wanted t'
    ]
  ]

  unfoldable pub find_object : (A → Bool) → Table A → Option (Option A × Table A)
  unfolding find_loop
  find_object wanted t = find_loop (length t.items + 1) wanted t

  -- What a search finds, by recursion on the objects from the `k`-th on, and where it stops.
  unfoldable pub found : (A → Bool) → List A → Option A
  found wanted [] = none
  found wanted (x ∷ xs) = if wanted x then some x else found wanted xs

  unfoldable pub stop : (A → Bool) → ℕ → List A → Cursor
  stop wanted k [] = rewound
  stop wanted k (x ∷ xs) = if wanted x then on k else stop wanted (suc k) xs

-- The cursor from which `get_object` goes to the `k`-th object.
abbrev pub before : ℕ → Cursor
before zero = rewound
before (suc k) = on k

-- `xs` is what is left of `items` from the `k`-th on.
abbrev pub Rest {ℓ} : {A : Type ℓ} → List A → ℕ → List A → Type ℓ
Rest items k xs = (i : ℕ) → get_elem? items (k + i) ≡ get_elem? xs i

module _ {A : Type 0} where
  pub get_object-before :
      (k : ℕ) (t : Table A) → t.broken ≡ false → t.cursor ≡ before k → get_object t ≡ step_to k t
  unfolding get_object get_whole
  get_object-before zero t whole at = simp (whole, at)
  get_object-before (suc k) t whole at = simp (whole, at)

  pub step_to-nil :
      (k : ℕ) (t : Table A)
      → Rest t.items k []
      → step_to k t ≡ some (none, record t { cursor = rewound })
  unfolding step_to
  step_to-nil k t rest =
      let e : get_elem? t.items k ≡ none = ap (get_elem? t.items) (omega arith) ∙ rest 0 in
      rw (e, step_to)

  pub step_to-cons :
      (k : ℕ) (t : Table A) (x : A) (xs : List A)
      → Rest t.items k (x ∷ xs)
      → step_to k t ≡ some (some x, record t { cursor = on k })
  unfolding step_to
  step_to-cons k t x xs rest =
      let e : get_elem? t.items k ≡ some x = ap (get_elem? t.items) (omega arith) ∙ rest 0 in
      rw (e, step_to)

  pub Rest-tail :
      (items : List A) (k : ℕ) (x : A) (xs : List A) → Rest items k (x ∷ xs) → Rest items (suc k) xs
  Rest-tail items k x xs rest i = ap (get_elem? items) (omega arith) ∙ rest (suc i)

  find_loop-found :
      (fuel k : ℕ) (wanted : A → Bool) (t : Table A) (xs : List A)
      → t.broken ≡ false
      → t.cursor ≡ before k
      → Rest t.items k xs
      → length xs < fuel
      → find_loop fuel wanted t ≡ some (found wanted xs, record t { cursor = stop wanted k xs })
  unfolding find_loop found stop
  find_loop-found zero k wanted t xs whole at rest lt = absurd (omega arith)
  find_loop-found (suc fuel) k wanted t [] whole at rest lt =
      rw (get_object-before k t whole at ∙ step_to-nil k t rest, find_loop)
  find_loop-found (suc fuel) k wanted t (x ∷ xs) whole at rest lt =
      rw (get_object-before k t whole at ∙ step_to-cons k t x xs rest, find_loop)
        (elim (Bool-cases (wanted x)) [
          | inl e ↦ rw e
          | inr e ↦ rw e (
              find_loop-found fuel (suc k) wanted (record t { cursor = on k }) xs whole refl
                (Rest-tail t.items k x xs rest) (omega arith))
        ])

  -- From a rewound table the loop finds the first object that is wanted, if there is one, and
  -- leaves the cursor on it; else it ends rewound. The objects stay as they are.
  pub find_object-found :
      (wanted : A → Bool) (t : Table A)
      → t.broken ≡ false
      → t.cursor ≡ rewound
      → find_object wanted t
        ≡ some (found wanted t.items, record t { cursor = stop wanted 0 t.items })
  unfolding find_object
  find_object-found wanted t whole start =
      find_loop-found (length t.items + 1) 0 wanted t t.items whole start
        (λ i. ap (get_elem? t.items) (omega arith)) (omega arith)

  pub found-never : (xs : List A) → found (λ (x : A). false) xs ≡ none
  unfolding found
  found-never [] = refl
  found-never (x ∷ xs) = found-never xs

  pub stop-never : (k : ℕ) (xs : List A) → stop (λ (x : A). false) k xs ≡ rewound
  unfolding stop
  stop-never k [] = refl
  stop-never k (x ∷ xs) = stop-never (suc k) xs

  pub found-stop :
      (wanted : A → Bool) (k : ℕ) (xs : List A)
      → found wanted xs ≡ none
      → stop wanted k xs ≡ rewound
  unfolding found stop
  found-stop wanted k [] e = refl
  found-stop wanted k (x ∷ xs) e = elim (Bool-cases (wanted x)) [
    | inl w ↦ cc
    | inr w ↦ simp w (found-stop wanted (suc k) xs (simp w at e))
  ]

  -- What is left of a list behind its first `k` objects.
  abbrev pub rest_of : ℕ → List A → List A
  rest_of zero xs = xs
  rest_of (suc k) [] = []
  rest_of (suc k) (x ∷ xs) = rest_of k xs

  rest_of-Rest : (k : ℕ) (xs : List A) → Rest xs k (rest_of k xs)
  rest_of-Rest zero xs i = ap (get_elem? xs) (omega arith)
  rest_of-Rest (suc k) [] i = refl
  rest_of-Rest (suc k) (x ∷ xs) i =
      let place : suc k + i ≡ suc (k + i) = omega arith in
      ap (get_elem? (x ∷ xs)) place ∙ rest_of-Rest k xs i

  length-rest_of : (k : ℕ) (xs : List A) → length (rest_of k xs) < length xs + 1
  length-rest_of zero xs = omega arith
  length-rest_of (suc k) [] = omega arith
  length-rest_of (suc k) (x ∷ xs) = omega (arith, length-rest_of k xs)

  -- A loop that wants no object goes on to the end from wherever the cursor stands.
  pub find_object-never :
      (k : ℕ) (t : Table A)
      → t.broken ≡ false
      → t.cursor ≡ before k
      → find_object (λ (x : A). false) t ≡ some (none, record t { cursor = rewound })
  unfolding find_object
  find_object-never k t whole at =
      find_loop-found (length t.items + 1) k (λ (x : A). false) t (rest_of k t.items) whole at
        (rest_of-Rest k t.items) (length-rest_of k t.items)
      ∙ rw (found-never (rest_of k t.items), stop-never k (rest_of k t.items)) refl
