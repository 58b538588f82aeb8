-- ===== src/Ani21/Text.antt =====
-- The text that `node_share_func` of ANIv21/_con.cpp sends to the neighbours.
use daim.Prelude.{
  ℕ, zero, suc, ◌+◌, ◌-◌, ◌/◌, ◌%◌, ◌^◌, ◌&&◌, Option, none, some, List, [], ◌∷◌, ◌++◌, ◌==◌, ltb,
  leb, if◌then◌else◌,
}
use daim.Wire.Order.{htons}
use daim.Wire.Buffer.{Buffer, put16}
use daim.Wire.Anim.{put_envelope}

-- The decimal digits of `n` in front of `text`, as `%u` prints them; 10 digits are enough for 32 bits.
unfoldable pub digits : (fuel n : ℕ) → (text : List ℕ) → List ℕ
digits zero n text = text
digits (suc fuel) n text =
    let rest = digits fuel (n / 10) ((48 + n % 10) ∷ text) in
    if ltb n 10 then (48 + n % 10) ∷ text else rest

-- "Hello, I am controller from datapath ", and the blank behind it.
abbrev pub greeting : List ℕ
greeting =
    72 ∷ 101 ∷ 108 ∷ 108 ∷ 111 ∷ 44 ∷ 32 ∷ 73 ∷ 32 ∷ 97 ∷ 109 ∷ 32 ∷ 99 ∷ 111 ∷ 110 ∷ 116 ∷ 114
    ∷ 111 ∷ 108 ∷ 108 ∷ 101 ∷ 114 ∷ 32 ∷ 102 ∷ 114 ∷ 111 ∷ 109 ∷ 32 ∷ 100 ∷ 97 ∷ 116 ∷ 97 ∷ 112 ∷ 97
    ∷ 116 ∷ 104 ∷ 32 ∷ 32 ∷ []

-- What `sprintf` writes. `%u` takes the low 32 bits of `datap`, which is a `uint64_t`.
unfoldable pub hello_text : (datap : ℕ) → List ℕ
hello_text datap = greeting ++ digits 10 (datap % 2 ^ 32) []

-- `message`: zeros, with the text at its start.
unfoldable pub text_buffer : List ℕ → Buffer
text_buffer [] i = 0
text_buffer (c ∷ cs) zero = c
text_buffer (c ∷ cs) (suc i) = text_buffer cs i

-- `memcpy (b + o, src, n)`, as a function of the offset.
unfoldable pub block : Buffer → (o : ℕ) → (src : Buffer) → (n : ℕ) → Buffer
block b o src n i = if leb o i && ltb i (o + n) then src (i - o) else b i

-- `n_buffer` with the text of the datapath `datap`, to be sent out of `port`, in network order.
unfoldable pub text_message : (datap port : ℕ) → Buffer
unfolding put16 htons
text_message datap port =
    put16 (block (put_envelope port) 38 (text_buffer (hello_text datap)) 1024) 2 (htons (38 + 1024))

-- The text that `cout` finds in `n` bytes from `o` on: up to the first zero, `none` without one.
unfoldable pub text_at : Buffer → (o n : ℕ) → Option (List ℕ)
text_at b o zero = none
text_at b o (suc n) =
    let rest = text_at b (o + 1) n in
    if b o == 0 then some [] else elim rest [ none ↦ none | some cs ↦ some (b o ∷ cs) ]
