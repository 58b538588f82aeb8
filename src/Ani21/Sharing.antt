-- ===== src/Ani21/Sharing.antt =====
-- The rounds of `node_share_func` of ANIv21/_con.cpp, and one period of it.
use daim.Prelude.{
  ℕ, zero, suc, ◌+◌, ◌≤◌, ◌<◌, ◌≡◌, refl, ap, ◌∙◌, false, List, ◌∷◌, ◌++◌, arith, leb, le→leb,
}
use daim.Wire.Order.{htons, ntohs, network_bytes}
use daim.Wire.Buffer.{bytes, get16, put8, put16}
use daim.Wire.Bytes.{bytes-cong, bytes-append}
use daim.Wire.Anim.{put_envelope, envelope_format}
use daim.Con.State.{Env, State, Message, ok, M, pure, ◌>>=◌, send_buffer}
use daim.Con.Features.{rounds}
use daim.Ani21.Text.{hello_text, text_buffer, block, text_message}
use daim.Ani21.Actions.{TextPc, entry, sending, share_text}
use daim.Ani21.Reading.{text_message-block}

-- The 1062 bytes for a port: a packet-out with an LLDP frame, and 1024 bytes with the text.
abbrev pub text_format : (datap port : ℕ) → Message
text_format datap port = envelope_format 1062 port ++ bytes (text_buffer (hello_text datap)) 0 1024

-- `sent` and then the text to each of the `n` ports from `i` on.
abbrev pub greeted : (datap n i : ℕ) → List Message → List Message
greeted datap zero i sent = sent
greeted datap (suc n) i sent = greeted datap n (i + 1) (text_format datap i ∷ sent)

-- `k` rounds of the thread.
unfoldable pub text_rounds : Env → ℕ → TextPc → M TextPc
text_rounds e zero pc = pure pc
text_rounds e (suc k) pc = share_text e pc >>= text_rounds e k

envelope_bytes :
    (datap port : ℕ) → bytes (text_message datap (htons port)) 0 38 ≡ envelope_format 1062 port
unfolding text_message block put_envelope bytes
envelope_bytes datap port = simp network_bytes

text_message-bytes :
    (datap port : ℕ) → bytes (text_message datap (htons port)) 0 1062 ≡ text_format datap port
text_message-bytes datap port =
    let text : bytes (text_message datap (htons port)) 38 1024
        ≡ bytes (text_buffer (hello_text datap)) 0 1024 =
      bytes-cong (text_message datap (htons port)) (text_buffer (hello_text datap)) 38 0 1024
        (λ i less.
          text_message-block datap (htons port) i less
          ∙ ap (text_buffer (hello_text datap)) (omega arith)) in
    bytes-append (text_message datap (htons port)) 0 38 1024 1062 refl
    ∙ ap (λ (l : List ℕ). l ++ bytes (text_message datap (htons port)) 38 1024)
        (envelope_bytes datap port)
    ∙ ap (λ (l : List ℕ). envelope_format 1062 port ++ l) text

length_text : (datap port : ℕ) → ntohs (get16 (text_message datap (htons port)) 2) ≡ 1062
unfolding text_message get16 ntohs htons put16 put8
length_text datap port = refl

module _ (e : Env) where
  text_rounds_none : (pc : TextPc) (s : State) → text_rounds e 0 pc s ≡ ok pc s
  unfolding text_rounds
  text_rounds_none pc s = refl

  text_step :
      (datap port n : ℕ) (s : State)
      → port ≤ rounds n
      → share_text e (sending port n datap) s
        ≡ ok (sending (port + 1) n datap) (record s { sent = text_format datap port ∷ s.sent })
  unfolding share_text send_buffer
  text_step datap port n s inside =
      let size : ntohs (get16 (text_message datap (htons port)) 2) ≡ 1062 =
        length_text datap port in
      let written : bytes (text_message datap (htons port)) 0
            (ntohs (get16 (text_message datap (htons port)) 2))
          ≡ text_format datap port =
        ap (bytes (text_message datap (htons port)) 0) size ∙ text_message-bytes datap port in
      simp (le→leb port (rounds n) inside, written)

  text_last :
      (datap port n : ℕ) (s : State)
      → rounds n < port
      → share_text e (sending port n datap) s ≡ ok (sending 1 n datap) s
  unfolding share_text
  text_last datap port n s past = let no : leb port (rounds n) ≡ false = ground arith in simp no

  text_rounds-step :
      (k : ℕ) (pc pc' : TextPc) (s s' : State)
      → share_text e pc s ≡ ok pc' s'
      → text_rounds e (suc k) pc s ≡ text_rounds e k pc' s'
  unfolding text_rounds
  text_rounds-step k pc pc' s s' step = simp step

  texts :
      (k i j q m datap n : ℕ) (s : State)
      → j ≡ i + k
      → q ≡ k + m
      → j ≤ rounds n + 1
      → text_rounds e q (sending i n datap) s
        ≡ text_rounds e m (sending j n datap) (record s { sent = greeted datap k i s.sent })
  texts zero i j q m datap n s at left fits =
      ap (λ (t : ℕ). text_rounds e t (sending i n datap) s) (omega arith)
      ∙ ap (λ (t : ℕ). text_rounds e m (sending t n datap) s) (omega arith)
  texts (suc k) i j q m datap n s at left fits =
      let s1 : State = record s { sent = text_format datap i ∷ s.sent } in
      ap (λ (t : ℕ). text_rounds e t (sending i n datap) s) (omega arith)
      ∙ text_rounds-step (k + m) (sending i n datap) (sending (i + 1) n datap) s s1
          (text_step datap i n s (omega arith))
      ∙ texts k (i + 1) j (k + m) m datap n s1 (omega arith) refl fits

  -- A period of the thread after it has read the switch it is for: in one more round than there are
  -- ports it sends the text of its datapath to every port from 1 on, in order, changes nothing else,
  -- and stands at the label again.
  pub text_rounds-period :
      (datap n : ℕ) (s : State)
      → text_rounds e (rounds n + 1) (sending 1 n datap) s
        ≡ ok (sending 1 n datap) (record s { sent = greeted datap (rounds n) 1 s.sent })
  text_rounds-period datap n s =
      let k : ℕ = rounds n in
      let s1 : State = record s { sent = greeted datap k 1 s.sent } in
      texts k 1 (1 + k) (k + 1) 1 datap n s refl refl (omega arith)
      ∙ text_rounds-step 0 (sending (1 + k) n datap) (sending 1 n datap) s1 s1
          (text_last datap (1 + k) n s1 (omega arith))
      ∙ text_rounds_none (sending 1 n datap) s1

  -- Started after a features reply, the thread sends in its first period the text of the datapath that
  -- this reply stated, to as many ports as it has.
  pub text_rounds-started :
      (s : State)
      → text_rounds e (rounds s.sw_in.no_of_ports + 2) entry s
        ≡ ok
            (sending 1 s.sw_in.no_of_ports s.sw_in.datapath_id)
            (record s { sent = greeted s.sw_in.datapath_id (rounds s.sw_in.no_of_ports) 1 s.sent })
  unfolding share_text
  text_rounds-started s =
      let count : rounds s.sw_in.no_of_ports + 2 ≡ suc (rounds s.sw_in.no_of_ports + 1) =
        omega arith in
      ap (λ (t : ℕ). text_rounds e t entry s) count
      ∙ text_rounds-step (rounds s.sw_in.no_of_ports + 1) entry
          (sending 1 s.sw_in.no_of_ports s.sw_in.datapath_id) s s refl
      ∙ text_rounds-period s.sw_in.datapath_id s.sw_in.no_of_ports s
