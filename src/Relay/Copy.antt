-- ===== src/Relay/Copy.antt =====
-- The loops of stage0.cpp that read from one socket and write to the other.
use daim.Prelude.{ℕ, zero, suc, ◌+◌, Option, none, some, List, [], ◌∷◌, ◌++◌}

-- The result of `read`: it fails, or gives some bytes, none at the end of the stream.
pub data Read : Type 0 where
  read_error : Read
  read_bytes : List ℕ → Read

-- The other ends of one direction: the `k`-th `read`, and what the `k`-th `write` of these bytes
-- returns: `none` for -1, or the number of bytes that were written.
pub record Ends : Type 0 where
  pub read : ℕ → Read
  pub write : ℕ → List ℕ → Option ℕ

-- One direction of the relay: the calls so far, and the bytes that came in and went out.
pub record Direction : Type 0 where
  pub reads : ℕ
  pub writes : ℕ
  pub received : List ℕ
  pub delivered : List ℕ

abbrev pub idle : Direction
idle = record { reads = 0; writes = 0; received = []; delivered = [] }

-- Where a loop stands after some rounds: it goes on, or it has left by one of its two exits.
pub data Status : Type 0 where
  going : Status
  can_not_read : Status
  can_not_write : Status

unfoldable pub first_bytes : ℕ → List ℕ → List ℕ
first_bytes zero bs = []
first_bytes (suc n) [] = []
first_bytes (suc n) (b ∷ bs) = b ∷ first_bytes n bs

-- The test of the result of `write`. A short write is not followed by a second one.
unfoldable pub after_write : List ℕ → Option ℕ → Direction → Status × Direction
after_write bs none d = (can_not_write, d)
after_write bs (some n) d = (going, record d { delivered = d.delivered ++ first_bytes n bs })

-- The tests of the result of `read`.
unfoldable pub after_read : Ends → Read → Direction → Status × Direction
after_read e read_error d = (can_not_read, d)
after_read e (read_bytes []) d = (going, d)
after_read e (read_bytes (b ∷ bs)) d =
    after_write (b ∷ bs) (e.write d.writes (b ∷ bs))
      (record d { writes = d.writes + 1; received = d.received ++ b ∷ bs })

-- One round of `while (1)`.
unfoldable pub round : Ends → Direction → Status × Direction
round e d = after_read e (e.read d.reads) (record d { reads = d.reads + 1 })

-- `k` rounds, or less if an exit is taken.
unfoldable pub copy_loop : Ends → (k : ℕ) → Status × Direction → Status × Direction
copy_loop e zero sd = sd
copy_loop e (suc k) (going, d) = copy_loop e k (round e d)
copy_loop e (suc k) (can_not_read, d) = (can_not_read, d)
copy_loop e (suc k) (can_not_write, d) = (can_not_write, d)
