-- ===== src/Con/Messages.antt =====
-- The messages that the loop of `send_information` for cbench comes to in a buffer.
use daim.Prelude.{ℕ, zero, suc, ◌+◌, ◌-◌, ◌<◌, ◌≡◌, true, false, List, [], ◌∷◌, ◌==◌, if◌then◌else◌}
use daim.Wire.Order.{ntohs}
use daim.Wire.Buffer.{Buffer, get16}
use daim.Wire.Ofp.{ofp_version}
use daim.Con.Ports.{Inside}

abbrev pub size_at : Buffer → (o : ℕ) → ℕ
size_at b o = ntohs (get16 b (o + 2))

-- The offsets of the messages in `counter` bytes from `pos` on, up to one of another version.
unfoldable pub messages : (fuel counter pos : ℕ) → Buffer → List ℕ
messages zero counter pos b = []
messages (suc fuel) counter pos b =
    let rest = messages fuel (counter - size_at b pos) (pos + size_at b pos) b in
    if counter == 0 then [] else if b pos == ofp_version then pos ∷ rest else []

pub messages-next :
    (fuel counter pos : ℕ) (b : Buffer)
    → (counter == 0) ≡ false
    → (b pos == ofp_version) ≡ true
    → messages (suc fuel) counter pos b
      ≡ pos ∷ messages fuel (counter - size_at b pos) (pos + size_at b pos) b
unfolding messages
messages-next fuel counter pos b some_left version = simp (some_left, version)

-- `P` holds at all of these offsets.
abbrev pub Along : (ℕ → Type 0) → List ℕ → Type 0
Along P [] = Unit {0}
Along P (o ∷ os) = P o × Along P os

-- No message that the loop comes to states the length 0, and every features reply among them has its
-- fixed part and lies in the buffer.
abbrev pub Proper : Buffer → (o : ℕ) → Type 0
Proper b o = (0 < size_at b o) × Inside (b (o + 1)) o b

abbrev pub AllProper : (fuel counter pos : ℕ) → Buffer → Type 0
AllProper fuel counter pos b = Along (Proper b) (messages fuel counter pos b)
