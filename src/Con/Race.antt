-- ===== src/Con/Race.antt =====
-- A reconnection of the main thread while `node_share_func` is in its loop over the replies.
use daim.Prelude.{ℕ, suc, ◌≡◌, refl, false, none, some, List, ◌∷◌}
use daim.Table.Ops.{Table, on, free_list, get_object, get_whole, left_behind}
use daim.Con.State.{Env, State, SwitchReply, undefined, and_then}
use daim.Con.Dispatch.{reconnect}
use daim.Con.Reconnect.{reconnect_lem}
use daim.Con.Share.{node_loop}

free_list-dangling :
    {A : Type 0} (t : Table A) (i : ℕ) (x : A) (xs : List A)
    → t.broken ≡ false
    → t.items ≡ x ∷ xs
    → t.cursor ≡ on i
    → get_object (free_list t) ≡ none
unfolding free_list left_behind get_object get_whole
free_list-dangling t i x xs whole some_left at = simp (whole, some_left, at)

-- While a sharing thread handles a reply, so that the cursor of the whole list of the replies stands
-- on it, a reconnection, which frees that list without the mutex, makes the next round of the
-- loop read freed memory, whatever the fuel.
pub node_loop-reconnect :
    (e : Env) (fd i fuel : ℕ) (r : SwitchReply) (rest : List SwitchReply) (s : State)
    → e.accept s.accepts ≡ some fd
    → s.sw_replys.broken ≡ false
    → s.sw_replys.items ≡ r ∷ rest
    → s.sw_replys.cursor ≡ on i
    → and_then (reconnect e s) (λ _ s'. node_loop e (suc fuel) s') ≡ undefined
unfolding node_loop
node_loop-reconnect e fd i fuel r rest s works whole some_left at =
    rw (reconnect_lem e s)
      (rw works (rw (node_loop, free_list-dangling s.sw_replys i r rest whole some_left at) refl))
