-- ===== src/Con/Rounds.antt =====
-- One round of `node_share_func`, with a free mutex and with one that is held.
use daim.Prelude.{◌≡◌, refl, sym, ap, inl, inr, Bool, true, false, ltb, leb, Bool-cases}
use mathlib.Core.Path.{subst}
use daim.Table.Ops.{list_rewind}
use daim.Con.State.{Env, State, Ends}
use daim.Con.Features.{rounds}
use daim.Con.Invariant.{Sound, Safe, Ends-Safe}
use daim.Con.Share.{ThreadPc, begin, echo, nodes, waiting, showing, share, share_nodes, share_links}
use daim.Con.Sharing.{unlocked, nodes_step, showing_step, send_echo_request_lem}

-- Sound tables and a free mutex.
abbrev pub Ready : State → Type 0
Ready s = Sound s × (s.links_mutex ≡ false)

module _ (e : Env) where
  free_state : (s : State) → s.links_mutex ≡ false → s ≡ unlocked s s.anim_node_counter
  free_state s free = ap (λ (b : Bool). record s { links_mutex = b }) free

  -- With a free mutex every round ends.
  pub share-Ready : (pc : ThreadPc) (s : State) → Ready s → Ends (λ _ s'. Ready s') (share e pc s)
  unfolding share list_rewind
  share-Ready begin s (sound, free) = simp free (sound, refl)
  share-Ready (echo portno n) s (sound, free) = elim (Bool-cases (leb portno (rounds n))) [
    | inl more ↦ simp (more, send_echo_request_lem) (sound, free)
    | inr done ↦ simp done (sound, free)
  ]
  share-Ready nodes s (sound, free) =
      subst (λ t. Ends (λ (_ : ThreadPc) s'. Ready s') (share e nodes t)) (sym (free_state s free))
        (rw (nodes_step e s s.anim_node_counter sound.replys_whole sound.replys_start) (
          record {
            hosts_whole = sound.hosts_whole;
            ports_whole = sound.ports_whole;
            ports_start = sound.ports_start;
            links_whole = sound.links_whole;
            links_start = sound.links_start;
            replys_whole = sound.replys_whole;
            replys_start = refl;
            distinct = sound.distinct;
          },
          refl,
        ))
  share-Ready waiting s (sound, free) = elim (Bool-cases (ltb 20 s.anim_node_counter)) [
    | inl late ↦ simp (free, late) (sound, refl)
    | inr early ↦ simp (free, early) (sound, refl)
  ]
  share-Ready showing s (sound, free) =
      subst (λ t. Ends (λ (_ : ThreadPc) s'. Ready s') (share e showing t))
        (sym (free_state s free))
        (rw
          (showing_step e s s.anim_node_counter sound.links_whole sound.links_start
            sound.replys_whole sound.replys_start)
          (
            record {
              hosts_whole = sound.hosts_whole;
              ports_whole = sound.ports_whole;
              ports_start = sound.ports_start;
              links_whole = refl;
              links_start = refl;
              replys_whole = refl;
              replys_start = refl;
              distinct = sound.distinct;
            },
            refl,
          ))

  -- A round that finds the mutex held waits, but for those that only send.
  share-held :
      (pc : ThreadPc) (s : State)
      → Sound s
      → s.links_mutex ≡ true
      → Safe ⊥ (λ _ s'. Sound s') (share e pc s)
  unfolding share share_nodes share_links
  share-held begin s sound held = simp held tt
  share-held (echo portno n) s sound held = elim (Bool-cases (leb portno (rounds n))) [
    | inl more ↦ simp (more, send_echo_request_lem) sound
    | inr done ↦ simp done sound
  ]
  share-held nodes s sound held = simp held tt
  share-held waiting s sound held = simp held tt
  share-held showing s sound held = simp held tt

  -- Every round of the thread keeps the invariant of the tables and does nothing undefined.
  pub share-Safe : (pc : ThreadPc) (s : State) → Sound s → Safe ⊥ (λ _ s'. Sound s') (share e pc s)
  share-Safe pc s sound = elim (Bool-cases s.links_mutex) [
    | inl held ↦ share-held pc s sound held
    | inr free ↦
        Ends-Safe ⊥ (λ (_ : ThreadPc) s'. Ready s') (λ (_ : ThreadPc) s'. Sound s')
          (λ _ s' ready. ready.0) (share e pc s) (share-Ready pc s (sound, free))
  ]
