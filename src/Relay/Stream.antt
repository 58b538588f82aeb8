-- ===== src/Relay/Stream.antt =====
-- What the relay does to the stream of bytes in one direction.
use daim.Prelude.{
  ℕ, zero, suc, ◌+◌, ◌≡◌, refl, sym, ap, ◌∙◌, Option, none, some, List, [], ◌∷◌, ◌++◌, length,
  arith,
}
use daim.Relay.Copy.{
  Read, read_error, read_bytes, Ends, Direction, Status, going, can_not_read, can_not_write,
  first_bytes, after_write, after_read, round, copy_loop,
}

-- A `write` that does not fail takes all the bytes.
abbrev pub Full : Option ℕ → List ℕ → Type 0
Full none bs = Unit {0}
Full (some n) bs = n ≡ length bs

-- What has come in and not gone out: nothing, but for the bytes whose `write` has failed.
abbrev pub InOrder : Status × Direction → Type 0
InOrder (going, d) = d.delivered ≡ d.received
InOrder (can_not_read, d) = d.delivered ≡ d.received
InOrder (can_not_write, d) = (bs : List ℕ) × (d.received ≡ d.delivered ++ bs)

first_bytes-length : (bs : List ℕ) → first_bytes (length bs) bs ≡ bs
unfolding first_bytes
first_bytes-length [] = refl
first_bytes-length (b ∷ bs) = ap (λ (rest : List ℕ). b ∷ rest) (first_bytes-length bs)

after_write-InOrder :
    (bs : List ℕ) (r : Option ℕ) (d : Direction)
    → Full r bs
    → d.received ≡ d.delivered ++ bs
    → InOrder (after_write bs r d)
unfolding after_write
after_write-InOrder bs none d full new = (bs, new)
after_write-InOrder bs (some n) d full new =
    ap (λ (xs : List ℕ). d.delivered ++ xs)
      (ap (λ (k : ℕ). first_bytes k bs) full ∙ first_bytes-length bs)
    ∙ sym new

module _ (e : Ends) where
  after_read-InOrder :
      (r : Read) (d : Direction)
      → ((k : ℕ) (bs : List ℕ) → Full (e.write k bs) bs)
      → d.delivered ≡ d.received
      → InOrder (after_read e r d)
  unfolding after_read
  after_read-InOrder read_error d full same = same
  after_read-InOrder (read_bytes []) d full same = same
  after_read-InOrder (read_bytes (b ∷ bs)) d full same =
      after_write-InOrder (b ∷ bs) (e.write d.writes (b ∷ bs)) _ (full d.writes (b ∷ bs))
        (ap (λ (xs : List ℕ). xs ++ b ∷ bs) (sym same))

  -- If every `write` that works takes all its bytes, then after any number of rounds, from a state in
  -- which all that came in has gone out, the bytes that have gone out are those that have come in, in
  -- their order; only after a failed `write` they are followed by bytes that have not gone out.
  pub copy_loop-InOrder :
      (k : ℕ) (sd : Status × Direction)
      → ((n : ℕ) (bs : List ℕ) → Full (e.write n bs) bs)
      → InOrder sd
      → InOrder (copy_loop e k sd)
  unfolding copy_loop round
  copy_loop-InOrder zero sd full so_far = so_far
  copy_loop-InOrder (suc k) (going, d) full so_far =
      copy_loop-InOrder k (round e d) full
        (after_read-InOrder (e.read d.reads) (record d { reads = d.reads + 1 }) full so_far)
  copy_loop-InOrder (suc k) (can_not_read, d) full so_far = so_far
  copy_loop-InOrder (suc k) (can_not_write, d) full so_far = so_far

  -- At the end of the stream, where every further `read` gives 0 bytes, the loop goes on for ever: after
  -- any number of rounds it is still going, and has only counted its reads.
  pub copy_loop-end_of_stream :
      (k : ℕ) (d : Direction)
      → ((n : ℕ) → e.read (d.reads + n) ≡ read_bytes [])
      → copy_loop e k (going, d) ≡ (going, record d { reads = d.reads + k })
  unfolding copy_loop round after_read
  copy_loop-end_of_stream zero d ended =
      ap (λ (r : ℕ). (going, record d { reads = r })) (omega arith)
  copy_loop-end_of_stream (suc k) d ended =
      let now : e.read d.reads ≡ read_bytes [] = ap e.read (omega arith) ∙ ended 0 in
      let d1 : Direction = record d { reads = d.reads + 1 } in
      simp now (
        copy_loop-end_of_stream k d1 (λ n. ap e.read (omega arith) ∙ ended (suc n))
        ∙ ap (λ (r : ℕ). (going, record d { reads = r })) (omega arith))
