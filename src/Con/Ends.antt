-- ===== src/Con/Ends.antt =====
-- Runs that come to their end.
use daim.Prelude.{Bool, true, false, if◌then◌else◌}
use daim.Con.State.{State, Run, ok, undefined, deadlock, exited, out_of_fuel, M, Ends, and_then}

-- A run that ends is followed by one that ends.
pub and_then-Ends :
    {X Y : Type 0} (P : X → State → Type 0) (Q : Y → State → Type 0) (k : X → M Y)
    → ((x : X) (s : State) → P x s → Ends Q (k x s))
    → (run : Run X) → Ends P run
    → Ends Q (and_then run k)
and_then-Ends P Q k next (ok x s) h = next x s h
and_then-Ends P Q k next undefined h = elim h [ ]
and_then-Ends P Q k next deadlock h = elim h [ ]
and_then-Ends P Q k next (exited s) h = elim h [ ]
and_then-Ends P Q k next out_of_fuel h = elim h [ ]

pub Ends-weaken :
    {X : Type 0} (P Q : X → State → Type 0)
    → ((x : X) (s : State) → P x s → Q x s)
    → (run : Run X) → Ends P run
    → Ends Q run
Ends-weaken P Q weaken (ok x s) h = weaken x s h
Ends-weaken P Q weaken undefined h = elim h [ ]
Ends-weaken P Q weaken deadlock h = elim h [ ]
Ends-weaken P Q weaken (exited s) h = elim h [ ]
Ends-weaken P Q weaken out_of_fuel h = elim h [ ]

pub if-Ends :
    {X : Type 0} (P : X → State → Type 0) (b : Bool) (m n : M X) (s : State)
    → Ends P (m s)
    → Ends P (n s)
    → Ends P ((if b then m else n) s)
if-Ends P true m n s h k = h
if-Ends P false m n s h k = k
