-- ===== src/Con/Threads.antt =====
-- The main thread and the threads that share nodes, step by step in any order.
use daim.Prelude.{ℕ, zero, suc, ◌-◌, ◌≡◌, refl, Bool, some, List, [], ◌∷◌, ◌++◌}
use mathlib.Core.Path.{subst}
use daim.Con.State.{Env, State, initial, ok}
use daim.Con.Dispatch.{goes_on, read_from_switch, reconnect}
use daim.Con.Spared.{Spared}
use daim.Con.Invariant.{Partly, Sound, Kept, Safe}
use daim.Con.Partly.{goes_on-Partly}
use daim.Con.Serve.{reconnect-Safe}
use daim.Con.Share.{ThreadPc, begin, share}
use daim.Con.Rounds.{share-Safe}

-- The state that all threads share, and where the threads that share nodes stand.
pub record System : Type 0 where
  pub main : State
  pub sharing : List ThreadPc

abbrev system : State → List ThreadPc → System
system s ts = record { main = s; sharing = ts }

-- The threads that an action has started.
abbrev pub started : ℕ → List ThreadPc
started zero = []
started (suc n) = begin ∷ started n

-- One step of one thread. The main thread reads, takes a new connection, or acts on a message; which
-- message it is, and in what order it does these things, is left open. A sharing thread makes one
-- round, or runs one part under the mutex. A step that waits for the mutex is not made. The actions of
-- the main thread wait while a part under the mutex runs, or use nothing that it uses, so that such a
-- part is one step. A reconnection frees the tables without the mutex: here it falls in between these
-- parts, and Con.Race is about one that does not.
pub data Step (e : Env) : System → System → Type 0 where
  reads :
      (s s' : State) (ts : List ThreadPc) (was_read : Bool)
      → read_from_switch e s ≡ ok was_read s'
      → Step e (system s ts) (system s' ts)
  reconnects :
      (s s' : State) (ts : List ThreadPc)
      → reconnect e s ≡ ok tt s'
      → Step e (system s ts) (system s' ts)
  acts :
      (s s' : State) (ts : List ThreadPc) (kind of_buffer : ℕ) (on : Bool)
      → goes_on e kind of_buffer s ≡ ok on s'
      → Step e (system s ts) (system s' (ts ++ started (s'.threads - s.threads)))
  shares :
      (s s' : State) (before after : List ThreadPc) (pc pc' : ThreadPc)
      → share e pc s ≡ ok pc' s'
      → Step e (system s (before ++ pc ∷ after)) (system s' (before ++ pc' ∷ after))

-- The systems that the program comes to, from the state in which `main` enters its loop.
pub data Reached (e : Env) : System → Type 0 where
  at_start :
      (cbench : Bool) (fd : ℕ)
      → Reached e (system (record (initial cbench) { sw_sockfd = some fd; accepts = 1 }) [])
  steps : (a b : System) → Reached e a → Step e a b → Reached e b

module _ (e : Env) (spared : Spared e) where
  Step-Sound : (a b : System) → Sound a.main → Step e a b → Sound b.main
  unfolding read_from_switch
  Step-Sound _ _ sound (reads s s' ts was_read ran) =
      subst (λ r. Safe ⊥ (λ (_ : Bool) t. Sound t) r) ran sound
  Step-Sound _ _ sound (reconnects s s' ts ran) =
      subst (Safe (Unit {0}) (λ (_ : Unit {0}) t. Sound t)) ran (reconnect-Safe e spared s sound)
  Step-Sound _ _ sound (acts s s' ts kind of_buffer on ran) =
      (subst (Partly (λ (_ : Bool) t. Kept s t)) ran
        (goes_on-Partly e spared kind of_buffer s sound)).0
  Step-Sound _ _ sound (shares s s' before after pc pc' ran) =
      subst (Safe ⊥ (λ (_ : ThreadPc) t. Sound t)) ran (share-Safe e pc s sound)

  -- Where no object gets its first allocation without the second, the invariant of the tables holds
  -- in every system that the program comes to, for any interleaving of the steps of the main thread
  -- and of any number of sharing threads in which no reconnection falls inside a part that a sharing
  -- thread runs under the mutex: whole tables, rewound cursors but for the hosts, and distinct
  -- host addresses.
  pub Reached-Sound : (a : System) → Reached e a → Sound a.main
  Reached-Sound _ (at_start cbench fd) = record {
    hosts_whole = refl;
    ports_whole = refl;
    ports_start = refl;
    links_whole = refl;
    links_start = refl;
    replys_whole = refl;
    replys_start = refl;
    distinct = tt;
  }
  Reached-Sound _ (steps a b reached step) = Step-Sound a b (Reached-Sound a reached) step
