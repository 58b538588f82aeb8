-- ===== src/Wire/Buffer.antt =====
-- A buffer is a function from offsets to bytes. A word is stored with its low byte first.
use daim.Prelude.{ℕ, zero, suc, ◌+◌, ◌*◌, ◌/◌, ◌%◌, ◌^◌, List, [], ◌∷◌, ◌==◌, if◌then◌else◌}

abbrev pub Buffer : Type 0
Buffer = ℕ → ℕ

-- A buffer after `memset (buffer, '\0', sizeof (buffer))`.
abbrev pub zeros : Buffer
zeros i = 0

unfoldable pub put8 : Buffer → ℕ → ℕ → Buffer
put8 b o v i = if i == o then v % 256 else b i

unfoldable pub put16 : Buffer → ℕ → ℕ → Buffer
unfolding put8
put16 b o v = put8 (put8 b o v) (o + 1) (v / 2 ^ 8)

unfoldable pub put32 : Buffer → ℕ → ℕ → Buffer
unfolding put16
put32 b o v = put16 (put16 b o v) (o + 2) (v / 2 ^ 16)

unfoldable pub put64 : Buffer → ℕ → ℕ → Buffer
unfolding put32
put64 b o v = put32 (put32 b o v) (o + 4) (v / 2 ^ 32)

unfoldable pub get16 : Buffer → ℕ → ℕ
get16 b o = b o + b (o + 1) * 2 ^ 8

unfoldable pub get32 : Buffer → ℕ → ℕ
unfolding get16
get32 b o = get16 b o + get16 b (o + 2) * 2 ^ 16

unfoldable pub get64 : Buffer → ℕ → ℕ
unfolding get32
get64 b o = get32 b o + get32 b (o + 4) * 2 ^ 32

-- The `n` bytes from offset `o` on.
unfoldable pub bytes : Buffer → ℕ → ℕ → List ℕ
bytes b o zero = []
bytes b o (suc n) = b o ∷ bytes b (o + 1) n

-- `memcpy (b + o, src + i, n)`.
unfoldable pub copy : Buffer → (o : ℕ) → (src : Buffer) → (i n : ℕ) → Buffer
unfolding put8
copy b o src i zero = b
copy b o src i (suc n) = copy (put8 b o (src i)) (o + 1) src (i + 1) n

-- A `uint8_t [6]`.
pub record Mac : Type 0 where
  pub a0 : ℕ
  pub a1 : ℕ
  pub a2 : ℕ
  pub a3 : ℕ
  pub a4 : ℕ
  pub a5 : ℕ

abbrev pub octets : Mac → List ℕ
octets m = m.a0 ∷ m.a1 ∷ m.a2 ∷ m.a3 ∷ m.a4 ∷ m.a5 ∷ []

unfoldable pub put_mac : Buffer → ℕ → Mac → Buffer
unfolding put8
put_mac b o m =
    put8
      (put8 (put8 (put8 (put8 (put8 b o m.a0) (o + 1) m.a1) (o + 2) m.a2) (o + 3) m.a3) (o + 4)
        m.a4)
      (o + 5) m.a5

unfoldable pub get_mac : Buffer → ℕ → Mac
get_mac b o = record {
  a0 = b o;
  a1 = b (o + 1);
  a2 = b (o + 2);
  a3 = b (o + 3);
  a4 = b (o + 4);
  a5 = b (o + 5);
}
