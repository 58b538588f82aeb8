-- ===== src/Ani21/Reading.antt =====
-- A controller of ANIv21 reads what `node_share_func` of another one has sent.
use daim.Prelude.{
  ℕ, zero, suc, ◌+◌, ◌-◌, ◌*◌, ◌/◌, ◌%◌, ◌^◌, ◌≤◌, ◌<◌, ◌≡◌, refl, ap, ◌∙◌, sym, inl, inr, Bool,
  true, false, some, List, [], ◌∷◌, length, arith, ◌==◌, ltb, leb, lt→ltb, le→leb, if◌then◌else◌,
  Bool-cases,
}
use daim.Wire.Buffer.{Buffer, put8, put16}
use daim.Con.State.{State, ok}
use daim.Con.PacketIn.{PacketIn, body}
use daim.Ani21.Actions.{heard_text, text_branch}
use daim.Ani21.Text.{digits, greeting, hello_text, text_buffer, block, text_message, text_at}

-- The number that decimal digits stand for, behind those of `m`.
unfoldable pub value : (m : ℕ) → List ℕ → ℕ
value m [] = m
value m (c ∷ cs) = value (m * 10 + (c - 48)) cs

-- The text behind the 38 bytes of the greeting.
abbrev pub behind : ℕ → List ℕ → List ℕ
behind zero cs = cs
behind (suc k) [] = []
behind (suc k) (c ∷ cs) = behind k cs

-- The datapath id that a text reports.
unfoldable pub reported : List ℕ → ℕ
unfolding value
reported text = value 0 (behind 38 text)

abbrev tens : ℕ → ℕ
tens zero = 1
tens (suc k) = 10 * tens k

-- Printing and reading a number gives the number, as long as there are enough digits.
value-digits :
    (fuel n : ℕ) (text : List ℕ) → n < tens fuel → value 0 (digits fuel n text) ≡ value n text
unfolding digits value
value-digits zero n text less = let none_left : 0 ≡ n = omega arith in rw none_left refl
value-digits (suc fuel) n text less = elim (Bool-cases (ltb n 10)) [
  | inl small ↦
      let last : 0 + (48 + n % 10 - 48) ≡ n = ground arith in
      rw small (ap (λ (k : ℕ). value k text) last)
  | inr big ↦
      let last : n / 10 * 10 + (48 + n % 10 - 48) ≡ n = omega arith in
      rw big (value-digits fuel (n / 10) ((48 + n % 10) ∷ text) (omega arith) ∙ rw last refl)
]

-- No character of a text is the zero that ends it.
abbrev pub no_zero : List ℕ → Bool
no_zero [] = true
no_zero (c ∷ cs) = if c == 0 then false else no_zero cs

no_zero-cons :
    (c : ℕ) (cs : List ℕ) → no_zero (c ∷ cs) ≡ true → ((c == 0) ≡ false) × (no_zero cs ≡ true)
no_zero-cons c cs good = elim (Bool-cases (c == 0)) [
  | inl z ↦ let no : false ≡ true = rw z at good in absurd cc
  | inr nz ↦ (nz, rw nz at good)
]

digits-no_zero :
    (fuel n : ℕ) (text : List ℕ)
    → no_zero text ≡ true
    → (no_zero (digits fuel n text) ≡ true) × (length (digits fuel n text) ≤ fuel + length text)
unfolding digits
digits-no_zero zero n text good = (good, omega arith)
digits-no_zero (suc fuel) n text good =
    let digit : (48 + n % 10 == 0) ≡ false = ground arith in
    elim (Bool-cases (ltb n 10)) [
      | inl small ↦ rw small (rw digit good, omega arith)
      | inr big ↦
          let (rest, short) = digits-no_zero fuel (n / 10) ((48 + n % 10) ∷ text) (rw digit good) in
          rw big (rest, omega (arith, short))
    ]

text_at_lem :
    (b : Buffer) (o n : ℕ) (cs : List ℕ)
    → no_zero cs ≡ true
    → length cs < n
    → ((i : ℕ) → i ≤ length cs → b (o + i) ≡ text_buffer cs i)
    → text_at b o n ≡ some cs
unfolding text_at text_buffer
text_at_lem b o zero cs good less same = absurd (omega arith)
text_at_lem b o (suc n) [] good less same =
    let place : o + 0 ≡ o = omega arith in
    let here : b o ≡ 0 = sym (ap b place) ∙ same 0 (omega arith) in rw here refl
text_at_lem b o (suc n) (c ∷ cs) good less same =
    let place : o + 0 ≡ o = omega arith in
    let here : b o ≡ c = sym (ap b place) ∙ same 0 (omega arith) in
    let rest : text_at b (o + 1) n ≡ some cs =
      text_at_lem b (o + 1) n cs (no_zero-cons c cs good).1 (omega arith)
        (λ i short. ap b (omega arith) ∙ same (suc i) (omega arith)) in
    let (set, good') = no_zero-cons c cs good in
    let nonzero : (b o == 0) ≡ false = ap (λ (k : ℕ). k == 0) here ∙ set in
    rw (nonzero, rest) (ap (λ (k : ℕ). some (k ∷ cs)) here)

length-greeting : length greeting ≡ 38
length-greeting = refl

hello_text-no_zero :
    (datap : ℕ) → (no_zero (hello_text datap) ≡ true) × (length (hello_text datap) ≤ 48)
unfolding hello_text
hello_text-no_zero datap =
    let (good, short) = digits-no_zero 10 (datap % 2 ^ 32) [] refl in (good, omega (arith, short))

pub text_message-block :
    (datap port i : ℕ)
    → i < 1024
    → text_message datap port (38 + i) ≡ text_buffer (hello_text datap) i
unfolding text_message put16 put8 block
text_message-block datap port i less =
    let not_low : (38 + i == 2) ≡ false = ground arith in
    let not_high : (38 + i == 3) ≡ false = ground arith in
    let from : leb 38 (38 + i) ≡ true = le→leb 38 (38 + i) (omega arith) in
    let to : ltb (38 + i) 1062 ≡ true = lt→ltb (38 + i) 1062 (omega arith) in
    let back : 38 + i - 38 ≡ i = omega arith in simp (not_low, not_high, from, to, back)

-- What a text reports of the datapath that it was made for.
pub reported-hello_text : (datap : ℕ) → reported (hello_text datap) ≡ datap % 2 ^ 32
unfolding reported hello_text value
reported-hello_text datap = value-digits 10 (datap % 2 ^ 32) [] (omega arith)

heard_text-text_message :
    (datap port : ℕ) (s : State) (p : PacketIn)
    → body p + 1024 ≤ 3072000
    → ((i : ℕ) → i < 1024 → s.read_buffer (body p + i) ≡ text_message datap port (38 + i))
    → heard_text s p ≡ some (hello_text datap)
unfolding heard_text
heard_text-text_message datap port s p fits carries =
    let (good, short) = hello_text-no_zero datap in
    let read : text_at s.read_buffer (body p) 1024 ≡ some (hello_text datap) =
      text_at_lem s.read_buffer (body p) 1024 (hello_text datap) good (omega arith)
        (λ i within. carries i (omega arith) ∙ text_message-block datap port i (omega arith)) in
    rw (le→leb (body p + 1024) 3072000 fits) read

-- Where a packet-in carries, behind its Ethernet header, the 1024 bytes that `node_share_func` of
-- another controller sends behind its own, and lies in the buffer: the branch for LLDP ends with the
-- state as it was, and prints the text of that controller, from which the low 32 bits of its datapath
-- id are read back.
pub text_branch-text_message :
    (datap port : ℕ) (s : State) (p : PacketIn)
    → body p + 1024 ≤ 3072000
    → ((i : ℕ) → i < 1024 → s.read_buffer (body p + i) ≡ text_message datap port (38 + i))
    → (text_branch p s ≡ ok tt s)
      × (text : List ℕ) × (heard_text s p ≡ some text)
      × (reported text ≡ datap % 2 ^ 32)
unfolding text_branch
text_branch-text_message datap port s p fits carries =
    let heard : heard_text s p ≡ some (hello_text datap) =
      heard_text-text_message datap port s p fits carries in
    (rw (text_branch, heard) refl, hello_text datap, heard, reported-hello_text datap)
