-- ===== src/Ani21/Threads.antt =====
-- ANIv21/_con.cpp: the main thread and the threads of `node_share_func`, step by step in any order.
use daim.Prelude.{
  ℕ, zero, suc, ◌-◌, ◌≤◌, ◌≡◌, refl, sym, Bool, some, List, [], ◌∷◌, ◌++◌, leb, Bool-cases, inl,
  inr, Option-cases,
}
use mathlib.Core.Path.{subst}
use daim.Con.State.{Env, State, initial, Ret, ok, Ends, send_buffer}
use daim.Con.Features.{rounds}
use daim.Con.Dispatch.{filled, create_switch_socket, read_from_switch}
use daim.Con.Reconnect.{free_list-whole, close_switch_lem}
use daim.Con.Learning.{Distinct}
use daim.Con.Spared.{Spared}
use daim.Con.Invariant.{Sound, Kept, Safe, Partly}
use daim.Ani21.Text.{text_at}
use daim.Ani21.Actions.{TextPc, entry, sending, share_text}
use daim.Ani21.Dispatch.{message_action, reconnect}
use daim.Ani21.Loop.{Terminated, message_action-Kept}
use daim.Ani21.Partly.{message_action-Partly}
use daim.Con.Ports.{Inside}

-- The state that all threads share, and where the threads of `node_share_func` stand.
pub record System : Type 0 where
  pub main : State
  pub texts : List TextPc

abbrev pub system : State → List TextPc → System
system s ts = record { main = s; texts = ts }

-- The threads that an action has started.
abbrev pub begun : ℕ → List TextPc
begun zero = []
begun (suc n) = entry ∷ begun n

-- One step of one thread. The main thread reads, takes a new connection, or acts on a message that
-- begins where one more message has room; a thread makes one round.
pub data Step (e : Env) : System → System → Type 0 where
  reads :
      (s s' : State) (ts : List TextPc) (was_read : Bool)
      → read_from_switch e s ≡ ok was_read s'
      → Step e (system s ts) (system s' ts)
  reconnects :
      (s s' : State) (ts : List TextPc)
      → reconnect e s ≡ ok tt s'
      → Step e (system s ts) (system s' ts)
  acts :
      (s s' : State) (ts : List TextPc) (kind of_buffer : ℕ) (r : Ret)
      → of_buffer ≤ 3061760
      → message_action e kind of_buffer s ≡ ok r s'
      → Step e (system s ts) (system s' (ts ++ begun (s'.threads - s.threads)))
  shares :
      (s s' : State) (before after : List TextPc) (pc pc' : TextPc)
      → share_text e pc s ≡ ok pc' s'
      → Step e (system s (before ++ pc ∷ after)) (system s' (before ++ pc' ∷ after))

-- Any number of steps.
pub data Steps (e : Env) : System → System → Type 0 where
  stay : (a : System) → Steps e a a
  go : (a b c : System) → Steps e a b → Step e b c → Steps e a c

-- The system in which `main` enters its loop, with the first connection.
abbrev pub first_system : (cbench : Bool) → (fd : ℕ) → System
first_system cbench fd = system (record (initial cbench) { sw_sockfd = some fd; accepts = 1 }) []

-- What every system that is reached has: sound tables, and texts that end.
abbrev pub Ready : State → Type 0
Ready s = Sound s × Terminated s.read_buffer

start-Ready : (cbench : Bool) (fd : ℕ) → Ready (first_system cbench fd).main
unfolding text_at
start-Ready cbench fd = (
  record {
    hosts_whole = refl;
    ports_whole = refl;
    ports_start = refl;
    links_whole = refl;
    replys_whole = refl;
    links_start = refl;
    replys_start = refl;
    distinct = tt;
  },
  λ o. ([], refl),
)

module _ (e : Env) where
  reconnect-Safe : (s : State) → Ready s → Safe (Unit {0}) (λ _ s'. Ready s') (reconnect e s)
  unfolding reconnect create_switch_socket
  reconnect-Safe s (sound, ends) =
      let (h_items, h_whole, _) = free_list-whole s.hosts sound.hosts_whole in
      let (_, p_whole, p_start) = free_list-whole s.ports sound.ports_whole in
      elim (Option-cases (e.accept s.accepts)) [
        | inl fails ↦ simp (close_switch_lem, fails) tt
        | inr (fd, works) ↦
            simp (close_switch_lem, works)
              (
                record {
                  hosts_whole = h_whole;
                  ports_whole = p_whole;
                  ports_start = p_start sound.ports_start;
                  links_whole = sound.links_whole;
                  replys_whole = sound.replys_whole;
                  links_start = sound.links_start;
                  replys_start = sound.replys_start;
                  distinct = subst Distinct (sym h_items) tt;
                },
                ends,
              )
      ]

  share_text-Ready :
      (pc : TextPc) (s : State) → Ready s → Ends (λ _ s'. Ready s') (share_text e pc s)
  unfolding share_text send_buffer
  share_text-Ready entry s ready = ready
  share_text-Ready (sending portno n datap) s ready = elim (Bool-cases (leb portno (rounds n))) [
    | inl more ↦ simp more ready
    | inr done ↦ simp done ready
  ]

module _ (e : Env) (spared : Spared e)
    (texts : (k : ℕ) → Terminated (filled (e.recv k).count (e.recv k).content)) where
  Step-Ready : (a b : System) → Ready a.main → Step e a b → Ready b.main
  unfolding read_from_switch
  Step-Ready _ _ (sound, ends) (reads s s' ts was_read ran) =
      subst (Safe ⊥ (λ (_ : Bool) t. Ready t)) ran (sound, texts s.recvs)
  Step-Ready _ _ ready (reconnects s s' ts ran) =
      subst (Safe (Unit {0}) (λ (_ : Unit {0}) t. Ready t)) ran (reconnect-Safe e s ready)
  Step-Ready _ _ (sound, ends) (acts s s' ts kind of_buffer r early ran) =
      let kept : Kept s s' =
        subst (Partly (λ (_ : Ret) t. Kept s t)) ran
          (message_action-Partly e spared kind of_buffer s sound ends early) in
      (kept.0, subst Terminated (sym kept.1) ends)
  Step-Ready _ _ ready (shares s s' before after pc pc' ran) =
      subst (Ends (λ (_ : TextPc) t. Ready t)) ran (share_text-Ready e pc s ready)

  Steps-Ready : (a b : System) → Ready a.main → Steps e a b → Ready b.main
  Steps-Ready _ _ ready (stay a) = ready
  Steps-Ready _ _ ready (go a b c before step) = Step-Ready b c (Steps-Ready a b ready before) step

  -- Where no object gets its first allocation without the second, and what is read holds a zero in
  -- every 1024 bytes: in every system that version 2.1 comes to, by any interleaving of the main
  -- thread and of any number of threads of `node_share_func`, every action on a message that has
  -- room in the buffer, and its fixed part where it is a features reply, comes to its end, with sound
  -- tables and the bytes that were read.
  pub Steps-Kept :
      (cbench : Bool) (fd : ℕ) (a : System)
      → Steps e (first_system cbench fd) a
      → (kind of_buffer : ℕ) → of_buffer ≤ 3061760
      → Inside kind of_buffer a.main.read_buffer
      → Ends (λ _ s'. Kept a.main s') (message_action e kind of_buffer a.main)
  Steps-Kept cbench fd a steps kind of_buffer early inside =
      let (sound, ends) = Steps-Ready (first_system cbench fd) a (start-Ready cbench fd) steps in
      message_action-Kept e spared kind of_buffer a.main sound ends early inside
