-- ===== src/Wire/Order.antt =====
-- The byte-order functions of <arpa/inet.h> and <endian.h> on a little-endian host, which is the
-- x86 machine of the build directories: each reverses the bytes of a word.
use daim.Prelude.{ℕ, ◌+◌, ◌*◌, ◌/◌, ◌%◌, ◌^◌, ◌<◌, ◌≡◌, List, [], ◌∷◌, ◌++◌, arith}

unfoldable pub htons : ℕ → ℕ
htons v = v % 256 * 2 ^ 8 + v / 2 ^ 8 % 256

unfoldable pub htonl : ℕ → ℕ
htonl v = v % 256 * 2 ^ 24 + v / 2 ^ 8 % 256 * 2 ^ 16 + v / 2 ^ 16 % 256 * 2 ^ 8 + v / 2 ^ 24 % 256

unfoldable pub htobe64 : ℕ → ℕ
htobe64 v =
    v % 256 * 2 ^ 56
    + v / 2 ^ 8 % 256 * 2 ^ 48
    + v / 2 ^ 16 % 256 * 2 ^ 40
    + v / 2 ^ 24 % 256 * 2 ^ 32
    + v / 2 ^ 32 % 256 * 2 ^ 24
    + v / 2 ^ 40 % 256 * 2 ^ 16
    + v / 2 ^ 48 % 256 * 2 ^ 8
    + v / 2 ^ 56 % 256

unfoldable pub ntohs : ℕ → ℕ
unfolding htons
ntohs = htons

unfoldable pub ntohl : ℕ → ℕ
unfolding htonl
ntohl = htonl

unfoldable pub be64toh : ℕ → ℕ
unfolding htobe64
be64toh = htobe64

-- The network order of a word, written down with no machine in between.
abbrev pub be16 : ℕ → List ℕ
be16 v = v / 2 ^ 8 % 256 ∷ v % 256 ∷ []

abbrev pub be32 : ℕ → List ℕ
be32 v = v / 2 ^ 24 % 256 ∷ v / 2 ^ 16 % 256 ∷ v / 2 ^ 8 % 256 ∷ v % 256 ∷ []

abbrev pub be64 : ℕ → List ℕ
be64 v = be32 (v / 2 ^ 32) ++ be32 v

pub htons-htons : (v : ℕ) → v < 2 ^ 16 → ntohs (htons v) ≡ v
unfolding htons ntohs
htons-htons v h = omega arith

pub htonl-htonl : (v : ℕ) → v < 2 ^ 32 → ntohl (htonl v) ≡ v
unfolding htonl ntohl
htonl-htonl v h = omega arith

pub htobe64-htobe64 : (v : ℕ) → v < 2 ^ 64 → be64toh (htobe64 v) ≡ v
unfolding htobe64 be64toh
htobe64-htobe64 v h = omega arith

-- The bytes of a word in network order, in the order of their addresses.
pub htons_byte0 : (v : ℕ) → htons v % 256 ≡ v / 256 % 256
unfolding htons
htons_byte0 v = omega arith

pub htons_byte1 : (v : ℕ) → htons v / 256 % 256 ≡ v % 256
unfolding htons
htons_byte1 v = omega arith

pub htonl_byte0 : (v : ℕ) → htonl v % 256 ≡ v / 2 ^ 24 % 256
unfolding htonl
htonl_byte0 v = omega arith

pub htonl_byte1 : (v : ℕ) → htonl v / 256 % 256 ≡ v / 2 ^ 16 % 256
unfolding htonl
htonl_byte1 v = omega arith

pub htonl_byte2 : (v : ℕ) → htonl v / 2 ^ 16 % 256 ≡ v / 256 % 256
unfolding htonl
htonl_byte2 v = omega arith

pub htonl_byte3 : (v : ℕ) → htonl v / 2 ^ 16 / 256 % 256 ≡ v % 256
unfolding htonl
htonl_byte3 v = omega arith

-- A byte stored as a byte.
pub byte_byte : (v : ℕ) → v % 256 % 256 ≡ v % 256
byte_byte v = omega arith

pub htobe64_byte0 : (v : ℕ) → htobe64 v % 256 ≡ v / 2 ^ 32 / 2 ^ 24 % 256
unfolding htobe64
htobe64_byte0 v = omega arith

pub htobe64_byte1 : (v : ℕ) → htobe64 v / 256 % 256 ≡ v / 2 ^ 32 / 2 ^ 16 % 256
unfolding htobe64
htobe64_byte1 v = omega arith

pub htobe64_byte2 : (v : ℕ) → htobe64 v / 2 ^ 16 % 256 ≡ v / 2 ^ 32 / 256 % 256
unfolding htobe64
htobe64_byte2 v = omega arith

pub htobe64_byte3 : (v : ℕ) → htobe64 v / 2 ^ 16 / 256 % 256 ≡ v / 2 ^ 32 % 256
unfolding htobe64
htobe64_byte3 v = omega arith

pub htobe64_byte4 : (v : ℕ) → htobe64 v / 2 ^ 32 % 256 ≡ v / 2 ^ 24 % 256
unfolding htobe64
htobe64_byte4 v = omega arith

pub htobe64_byte5 : (v : ℕ) → htobe64 v / 2 ^ 32 / 256 % 256 ≡ v / 2 ^ 16 % 256
unfolding htobe64
htobe64_byte5 v = omega arith

pub htobe64_byte6 : (v : ℕ) → htobe64 v / 2 ^ 32 / 2 ^ 16 % 256 ≡ v / 256 % 256
unfolding htobe64
htobe64_byte6 v = omega arith

pub htobe64_byte7 : (v : ℕ) → htobe64 v / 2 ^ 32 / 2 ^ 16 / 256 % 256 ≡ v % 256
unfolding htobe64
htobe64_byte7 v = omega arith

pub ruleset network_bytes = (
  htons_byte0, htons_byte1, htonl_byte0, htonl_byte1, htonl_byte2, htonl_byte3, byte_byte,
  htobe64_byte0, htobe64_byte1, htobe64_byte2, htobe64_byte3, htobe64_byte4, htobe64_byte5,
  htobe64_byte6, htobe64_byte7,
)
