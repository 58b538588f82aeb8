-- ===== src/Wire/Bytes.antt =====
-- The bytes of a part of a buffer, as a list.
use daim.Prelude.{ℕ, zero, suc, ◌+◌, ◌<◌, ◌≤◌, ◌≡◌, refl, ap, ◌∙◌, List, ◌∷◌, ◌++◌, arith}
use daim.Wire.Buffer.{Buffer, bytes, get16, get32, get64}

pub bytes-cong :
    (b c : Buffer) (o o' n : ℕ)
    → ((i : ℕ) → i < n → b (o + i) ≡ c (o' + i))
    → bytes b o n ≡ bytes c o' n
unfolding bytes
bytes-cong b c o o' zero same = refl
bytes-cong b c o o' (suc n) same =
    let head : b o ≡ c o' = ap b (omega arith) ∙ same 0 (omega arith) ∙ ap c (omega arith) in
    let rest : bytes b (o + 1) n ≡ bytes c (o' + 1) n =
      bytes-cong b c (o + 1) (o' + 1) n
        (λ i less. ap b (omega arith) ∙ same (i + 1) (omega arith) ∙ ap c (omega arith)) in
    rw (head, rest) refl

pub bytes-append :
    (b : Buffer) (o m n q : ℕ) → q ≡ m + n → bytes b o q ≡ bytes b o m ++ bytes b (o + m) n
unfolding bytes
bytes-append b o zero n q eq =
    let count : q ≡ n = omega arith in
    let place : o ≡ o + 0 = omega arith in
    ap (λ (k : ℕ). bytes b o k) count ∙ ap (λ (j : ℕ). bytes b j n) place
bytes-append b o (suc m) n zero eq = absurd (omega arith)
bytes-append b o (suc m) n (suc q) eq =
    let place : o + 1 + m ≡ o + suc m = omega arith in
    let rest : bytes b (o + 1) q ≡ bytes b (o + 1) m ++ bytes b (o + suc m) n =
      bytes-append b (o + 1) m n q (omega arith)
      ∙ ap (λ (j : ℕ). bytes b (o + 1) m ++ bytes b j n) place in
    ap (λ (r : List ℕ). b o ∷ r) rest

-- Two buffers hold the same `n` bytes, one from `o` on and the other from `o'` on.
abbrev pub SameFrom : Buffer → (o : ℕ) → Buffer → (o' n : ℕ) → Type 0
SameFrom b o c o' n = (i : ℕ) → i < n → b (o + i) ≡ c (o' + i)

SameFrom-shift :
    (b c : Buffer) (o o' k n m : ℕ)
    → k + m ≤ n
    → SameFrom b o c o' n
    → SameFrom b (o + k) c (o' + k) m
SameFrom-shift b c o o' k n m fits same i less =
    let here : o + k + i ≡ o + (k + i) = omega arith in
    let there : o' + (k + i) ≡ o' + k + i = omega arith in
    ap b here ∙ same (k + i) (omega arith) ∙ ap c there

pub get16-SameFrom : (b c : Buffer) (o o' : ℕ) → SameFrom b o c o' 2 → get16 b o ≡ get16 c o'
unfolding get16
get16-SameFrom b c o o' same =
    let here : o ≡ o + 0 = omega arith in
    let there : o' + 0 ≡ o' = omega arith in
    let low : b o ≡ c o' = ap b here ∙ same 0 (omega arith) ∙ ap c there in
    let high : b (o + 1) ≡ c (o' + 1) = same 1 (omega arith) in rw (low, high) refl

pub get32-SameFrom : (b c : Buffer) (o o' : ℕ) → SameFrom b o c o' 4 → get32 b o ≡ get32 c o'
unfolding get32
get32-SameFrom b c o o' same =
    rw
      (
        get16-SameFrom b c o o' (λ i less. same i (omega arith)),
        get16-SameFrom b c (o + 2) (o' + 2) (SameFrom-shift b c o o' 2 4 2 (omega arith) same),
      )
      refl

pub get64-SameFrom : (b c : Buffer) (o o' : ℕ) → SameFrom b o c o' 8 → get64 b o ≡ get64 c o'
unfolding get64
get64-SameFrom b c o o' same =
    rw
      (
        get32-SameFrom b c o o' (λ i less. same i (omega arith)),
        get32-SameFrom b c (o + 4) (o' + 4) (SameFrom-shift b c o o' 4 8 4 (omega arith) same),
      )
      refl
