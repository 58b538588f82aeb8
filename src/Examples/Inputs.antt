-- ===== src/Examples/Inputs.antt =====
-- A world in which every call succeeds, and buffers that a switch may send.
use daim.Prelude.{
  ℕ, zero, suc, ◌+◌, ◌<◌, ◌≡◌, inl, ◌≢◌, Bool, true, refl, ap, false, some, List, [], ◌∷◌, ◌==◌,
  arith, if◌then◌else◌,
}
use daim.Wire.Order.{ntohs}
use daim.Wire.Buffer.{Buffer, zeros, get16}
use daim.Table.Ops.{granted, no_object, no_chars}
use daim.Con.State.{Env, State, bytes_done, initial}
use daim.Con.Spared.{Spared}
use daim.Con.Dispatch.{filled}
use daim.Con.Messages.{messages, AllProper}

-- The bytes of a list, and 0 behind them.
abbrev pub buffer_of : List ℕ → Buffer
buffer_of [] i = 0
buffer_of (x ∷ xs) zero = x
buffer_of (x ∷ xs) (suc i) = buffer_of xs i

-- `send`, `recv` and `accept` work, and memory is granted. `recv` gives nothing.
abbrev pub calm : Env
calm = record {
  send = λ sent. bytes_done 8;
  recv = λ k. record { count = bytes_done 0; content = zeros };
  accept = λ k. some 7;
  grant = λ k. granted;
  leftover = false;
}

-- The first allocation of an object fails, and all others work.
abbrev pub scarce : Env
scarce = record calm { grant = λ k. if k == 0 then no_object else granted }

either-Spared : (b : Bool) → (if b then no_object else granted) ≢ no_chars
either-Spared true e = cc
either-Spared false e = cc

pub scarce-Spared : Spared scarce
scarce-Spared k = either-Spared (k == 0)

pub all_granted : (k : ℕ) → calm.grant k ≡ granted
all_granted k = refl

abbrev pub with_buffer : List ℕ → State
with_buffer xs = record (initial false) { read_buffer = buffer_of xs }

-- A packet-in with the frame behind its 18 bytes: version, type, length, transaction id, buffer id,
-- length of the frame, port, reason and padding.
abbrev pub packet_of : List ℕ → List ℕ
packet_of frame = 1 ∷ 10 ∷ 0 ∷ 60 ∷ 0 ∷ 0 ∷ 0 ∷ 9 ∷ 0 ∷ 0 ∷ 1 ∷ 44 ∷ 0 ∷ 42 ∷ 0 ∷ 3 ∷ 0 ∷ 0 ∷ frame

-- An ARP request: a broadcast from 00:00:00:00:00:01.
abbrev pub arp_request : List ℕ
arp_request = packet_of (
    255 ∷ 255 ∷ 255 ∷ 255 ∷ 255 ∷ 255 ∷ 0 ∷ 0 ∷ 0 ∷ 0 ∷ 0 ∷ 1 ∷ 8 ∷ 6 ∷ 0 ∷ 1 ∷ 8 ∷ 0 ∷ 6 ∷ 4 ∷ 0
    ∷ 1 ∷ 0 ∷ 0 ∷ 0 ∷ 0 ∷ 0 ∷ 1 ∷ 10 ∷ 0 ∷ 0 ∷ 1 ∷ [])

-- An LLDP frame with an echo request of another controller.
abbrev pub lldp_request : List ℕ
lldp_request =
    packet_of (1 ∷ 35 ∷ 32 ∷ 0 ∷ 0 ∷ 1 ∷ 0 ∷ 0 ∷ 0 ∷ 0 ∷ 0 ∷ 1 ∷ 136 ∷ 204 ∷ 0 ∷ 0 ∷ 0 ∷ 4 ∷ [])

-- An IPv6 frame.
abbrev pub ip6_frame : List ℕ
ip6_frame = packet_of (0 ∷ 0 ∷ 0 ∷ 0 ∷ 0 ∷ 2 ∷ 0 ∷ 0 ∷ 0 ∷ 0 ∷ 0 ∷ 1 ∷ 134 ∷ 221 ∷ [])

-- A features reply of the switch 5, with one port and with none.
abbrev pub one_port : List ℕ
one_port =
    1 ∷ 6 ∷ 0 ∷ 80 ∷ 0 ∷ 0 ∷ 0 ∷ 2 ∷ 0 ∷ 0 ∷ 0 ∷ 0 ∷ 0 ∷ 0 ∷ 0 ∷ 5 ∷ 0 ∷ 0 ∷ 1 ∷ 0 ∷ 1 ∷ 0 ∷ 0 ∷ 0
    ∷ 0 ∷ 0 ∷ 0 ∷ 0 ∷ 0 ∷ 0 ∷ 0 ∷ 0 ∷ 0 ∷ 2 ∷ 0 ∷ 0 ∷ 0 ∷ 0 ∷ 0 ∷ 9 ∷ []

abbrev pub no_port : List ℕ
no_port = 1 ∷ 6 ∷ 0 ∷ 32 ∷ 0 ∷ 0 ∷ 0 ∷ 2 ∷ 0 ∷ 0 ∷ 0 ∷ 0 ∷ 0 ∷ 0 ∷ 0 ∷ 5 ∷ []

-- Two echo requests of 8 bytes, as `recv` leaves them in the buffer.
abbrev pub two_messages : Buffer
two_messages =
    filled (bytes_done 16)
      (buffer_of (1 ∷ 2 ∷ 0 ∷ 8 ∷ 0 ∷ 0 ∷ 0 ∷ 1 ∷ 1 ∷ 2 ∷ 0 ∷ 8 ∷ 0 ∷ 0 ∷ 0 ∷ 2 ∷ []))

pub two_messages-AllProper : AllProper 17 16 0 two_messages
unfolding messages filled get16 ntohs
two_messages-AllProper = ((omega arith, inl refl), ((omega arith, inl refl), tt))

-- A packet-in at the start of the buffer with the frame of a packet-out that another controller has
-- sent: the frame stands at the offset 18 of the one and 24 of the other.
abbrev pub frame_of : Buffer → State
frame_of b = record (initial false) { read_buffer = λ i. b (i + 6) }

pub frame_of_same :
    (b : Buffer) (i n : ℕ) → i < n → (frame_of b).read_buffer (0 + 18 + 14 + i) ≡ b (38 + i)
frame_of_same b i n less = let place : 32 + i + 6 ≡ 38 + i = omega arith in ap b place
