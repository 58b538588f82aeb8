-- ===== src/Ani21/Stale.antt =====
-- ANIv21/_con.cpp: what the threads of `node_share_func` keep of the switch that has started them.
use daim.Prelude.{◌≡◌, refl, ◌∙◌, List, [], ◌∷◌, ◌++◌, leb, Bool-cases, inl, inr}
use mathlib.Core.Path.{subst}
use daim.Con.State.{Env, State, Ends}
use daim.Con.Features.{rounds}
use daim.Ani21.Actions.{TextPc, entry, sending, share_text}
use daim.Ani21.Threads.{System, Step, reads, reconnects, acts, shares, Steps, stay, go}

-- A thread that has begun to send goes on with the same number of ports and the same datapath id.
abbrev pub Follows : TextPc → TextPc → Type 0
Follows entry pc = Unit {0}
Follows (sending portno n datap) entry = ⊥
Follows (sending portno n datap) (sending portno' n' datap') = (n' ≡ n) × (datap' ≡ datap)

-- The threads `ts'` are those of `ts`, and others that have been started since.
abbrev pub GoOn : List TextPc → List TextPc → Type 0
GoOn [] ts' = Unit {0}
GoOn (pc ∷ ts) [] = ⊥
GoOn (pc ∷ ts) (pc' ∷ ts') = Follows pc pc' × GoOn ts ts'

Follows-refl : (pc : TextPc) → Follows pc pc
Follows-refl entry = tt
Follows-refl (sending portno n datap) = (refl, refl)

Follows-trans : (a b c : TextPc) → Follows a b → Follows b c → Follows a c
Follows-trans entry b c f g = tt
Follows-trans (sending p n d) entry c f g = elim f [ ]
Follows-trans (sending p n d) (sending p' n' d') entry f g = elim g [ ]
Follows-trans (sending p n d) (sending p' n' d') (sending p'' n'' d'') f g = (g.0 ∙ f.0, g.1 ∙ f.1)

GoOn-append : (ts more : List TextPc) → GoOn ts (ts ++ more)
GoOn-append [] more = tt
GoOn-append (pc ∷ ts) more = (Follows-refl pc, GoOn-append ts more)

GoOn-refl : (ts : List TextPc) → GoOn ts ts
GoOn-refl [] = tt
GoOn-refl (pc ∷ ts) = (Follows-refl pc, GoOn-refl ts)

GoOn-trans : (ts us vs : List TextPc) → GoOn ts us → GoOn us vs → GoOn ts vs
GoOn-trans [] us vs f g = tt
GoOn-trans (a ∷ ts) [] vs f g = elim f [ ]
GoOn-trans (a ∷ ts) (b ∷ us) [] f g = elim g [ ]
GoOn-trans (a ∷ ts) (b ∷ us) (c ∷ vs) f g =
    (Follows-trans a b c f.0 g.0, GoOn-trans ts us vs f.1 g.1)

GoOn-replace :
    (before after : List TextPc) (pc pc' : TextPc)
    → Follows pc pc'
    → GoOn (before ++ pc ∷ after) (before ++ pc' ∷ after)
GoOn-replace [] after pc pc' f = (f, GoOn-refl after)
GoOn-replace (b ∷ before) after pc pc' f = (Follows-refl b, GoOn-replace before after pc pc' f)

module _ (e : Env) where
  share_text-Follows :
      (pc : TextPc) (s : State) → Ends (λ pc' _. Follows pc pc') (share_text e pc s)
  unfolding share_text
  share_text-Follows entry s = tt
  share_text-Follows (sending portno n datap) s = elim (Bool-cases (leb portno (rounds n))) [
    | inl more ↦ simp more (refl, refl)
    | inr done ↦ simp done (refl, refl)
  ]

  Step-GoOn : (a b : System) → Step e a b → GoOn a.texts b.texts
  Step-GoOn _ _ (reads s s' ts was_read ran) = GoOn-refl ts
  Step-GoOn _ _ (reconnects s s' ts ran) = GoOn-refl ts
  Step-GoOn _ _ (acts s s' ts kind of_buffer r early ran) = GoOn-append ts _
  Step-GoOn _ _ (shares s s' before after pc pc' ran) =
      GoOn-replace before after pc pc'
        (subst (Ends (λ k (_ : State). Follows pc k)) ran (share_text-Follows pc s))

  -- Whatever the main thread reads, however often it reconnects to another switch, and whatever features
  -- replies it acts on: no thread of `node_share_func` ends, and one that has begun to send goes on with
  -- the number of ports and the datapath id that it read first.
  pub Steps-GoOn : (a b : System) → Steps e a b → GoOn a.texts b.texts
  Steps-GoOn _ _ (stay a) = GoOn-refl a.texts
  Steps-GoOn _ _ (go a b c before step) =
      GoOn-trans a.texts b.texts c.texts (Steps-GoOn a b before) (Step-GoOn b c step)
