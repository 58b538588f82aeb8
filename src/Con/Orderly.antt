-- ===== src/Con/Orderly.antt =====
-- The threads of ANIv41/_con.cpp, while no features reply without a port is acted on.
use daim.Prelude.{ℕ, ◌≡◌, refl, inl, inr, Bool, false, Option-cases}
use mathlib.Core.Path.{subst}
use daim.Con.State.{Env, State, Ends}
use daim.Con.Dispatch.{goes_on, read_from_switch, reconnect}
use daim.Con.Reconnect.{reconnect_lem, reconnected-Sound}
use daim.Con.Ports.{Inside}
use daim.Con.Spared.{Spared}
use daim.Con.Invariant.{Safe}
use daim.Con.Free.{without_port, Freed, goes_on-Freed}
use daim.Con.Share.{ThreadPc, share}
use daim.Con.Rounds.{Ready, share-Ready}
use daim.Con.Threads.{System, Step, reads, reconnects, acts, shares, Reached, at_start, steps}

-- A step that acts on no features reply without a port, and on none that lacks its fixed part or does
-- not lie in the buffer.
abbrev pub StepOrderly : {e : Env} {a b : System} → Step e a b → Type 0
StepOrderly (reads s s' ts was_read ran) = Unit {0}
StepOrderly (reconnects s s' ts ran) = Unit {0}
StepOrderly (acts s s' ts kind of_buffer on ran) =
    (without_port kind of_buffer s ≡ false) × Inside kind of_buffer s.read_buffer
StepOrderly (shares s s' before after pc pc' ran) = Unit {0}

abbrev pub Orderly : {e : Env} {a : System} → Reached e a → Type 0
Orderly (at_start cbench fd) = Unit {0}
Orderly (steps a b reached step) = Orderly reached × StepOrderly step

reconnect-Ready :
    (e : Env) (s : State) → Ready s → Safe (Unit {0}) (λ _ s'. Ready s') (reconnect e s)
reconnect-Ready e s (sound, free) =
    rw (reconnect_lem e s) (elim (Option-cases (e.accept s.accepts)) [
      | inl fails ↦ rw fails tt
      | inr (fd, works) ↦ rw works (reconnected-Sound e s sound, free)
    ])

module _ (e : Env) (spared : Spared e) where
  Step-Ready : (a b : System) → Ready a.main → (step : Step e a b) → StepOrderly step → Ready b.main
  unfolding read_from_switch
  Step-Ready _ _ ready (reads s s' ts was_read ran) orderly =
      subst (Safe ⊥ (λ (_ : Bool) t. Ready t)) ran ready
  Step-Ready _ _ ready (reconnects s s' ts ran) orderly =
      subst (Safe (Unit {0}) (λ (_ : Unit {0}) t. Ready t)) ran (reconnect-Ready e s ready)
  Step-Ready _ _ (sound, free) (acts s s' ts kind of_buffer on ran) orderly =
      let freed : Freed s s' =
        subst (Ends (λ (_ : Bool) t. Freed s t)) ran
          (goes_on-Freed e spared kind of_buffer s sound free orderly.0 orderly.1) in
      (freed.0.0, freed.1)
  Step-Ready _ _ ready (shares s s' before after pc pc' ran) orderly =
      subst (Ends (λ (_ : ThreadPc) t. Ready t)) ran (share-Ready e pc s ready)

  Reached-Ready : (a : System) (reached : Reached e a) → Orderly reached → Ready a.main
  Reached-Ready _ (at_start cbench fd) orderly = (
    record {
      hosts_whole = refl;
      ports_whole = refl;
      ports_start = refl;
      links_whole = refl;
      links_start = refl;
      replys_whole = refl;
      replys_start = refl;
      distinct = tt;
    },
    refl,
  )
  Reached-Ready _ (steps a b reached step) orderly =
      Step-Ready a b (Reached-Ready a reached orderly.0) step orderly.1

  -- No deadlock: where no object gets its first allocation without the second, in every system that the
  -- program comes to by an interleaving in which every features reply that is acted on has a port and
  -- its fixed part and lies in the buffer, and in which no reconnection falls inside a part that a
  -- sharing thread runs under the mutex: every action on a message that is no other features reply
  -- comes to its end, and so does every round of a sharing thread, with sound tables and a free mutex.
  pub Reached-ends :
      (a : System) (reached : Reached e a) (kind of_buffer : ℕ)
      → Orderly reached
      → without_port kind of_buffer a.main ≡ false
      → Inside kind of_buffer a.main.read_buffer
      → Ends (λ _ s'. Freed a.main s') (goes_on e kind of_buffer a.main)
        × ((pc : ThreadPc) → Ends (λ _ s'. Ready s') (share e pc a.main))
  Reached-ends a reached kind of_buffer orderly ports inside =
      let (sound, free) = Reached-Ready a reached orderly in
      (
        goes_on-Freed e spared kind of_buffer a.main sound free ports inside,
        (λ pc. share-Ready e pc a.main (sound, free)),
      )
