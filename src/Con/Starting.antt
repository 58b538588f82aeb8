-- ===== src/Con/Starting.antt =====
-- How `main` of ANIv41/ani.cpp comes to its loop.
use daim.Prelude.{
  ℕ, zero, suc, ◌%◌, ◌^◌, ◌≡◌, refl, ap, ◌⊎◌, inl, inr, Bool, true, false, Option, none, some, List,
  [], ◌∷◌, Bool-cases, Option-cases,
}
use daim.Con.State.{Env, State}
use daim.Con.Dispatch.{create_switch_socket}
use daim.Con.Serve.{Reachable, start}
use daim.Con.Start.{
  Opt, opt_port, opt_quiet, opt_cbench, opt_help, opt_version, opt_other, Options, default_options,
  read_options, Listening, listens, create_ani_socket, Started, exit_success, exit_failure,
  joins_no_thread, in_loop, close_one, close_both, connected, with_socket, with_options, ani_main,
}

-- Whether the options ask for help, or for the version, before which nothing else counts.
abbrev pub asks : List Opt → Bool
asks [] = false
asks (opt_help ∷ opts) = true
asks (opt_version ∷ opts) = true
asks (opt_port number ∷ opts) = asks opts
asks (opt_quiet ∷ opts) = asks opts
asks (opt_cbench ∷ opts) = asks opts
asks (opt_other ∷ opts) = asks opts

-- Whether an option sets cbench.
abbrev pub wants_cbench : List Opt → Bool → Bool
wants_cbench [] b = b
wants_cbench (opt_help ∷ opts) b = wants_cbench opts b
wants_cbench (opt_version ∷ opts) b = wants_cbench opts b
wants_cbench (opt_port number ∷ opts) b = wants_cbench opts b
wants_cbench (opt_quiet ∷ opts) b = wants_cbench opts b
wants_cbench (opt_cbench ∷ opts) b = wants_cbench opts true
wants_cbench (opt_other ∷ opts) b = wants_cbench opts b

-- The port of the last option that sets one, as 16 bits.
abbrev pub wants_port : List Opt → ℕ → ℕ
wants_port [] p = p
wants_port (opt_help ∷ opts) p = wants_port opts p
wants_port (opt_version ∷ opts) p = wants_port opts p
wants_port (opt_port number ∷ opts) p = wants_port opts (number % 2 ^ 16)
wants_port (opt_quiet ∷ opts) p = wants_port opts p
wants_port (opt_cbench ∷ opts) p = wants_port opts p
wants_port (opt_other ∷ opts) p = wants_port opts p

-- Whether no option sets quiet.
abbrev pub wants_words : List Opt → Bool → Bool
wants_words [] v = v
wants_words (opt_help ∷ opts) v = wants_words opts v
wants_words (opt_version ∷ opts) v = wants_words opts v
wants_words (opt_port number ∷ opts) v = wants_words opts v
wants_words (opt_quiet ∷ opts) v = wants_words opts false
wants_words (opt_cbench ∷ opts) v = wants_words opts v
wants_words (opt_other ∷ opts) v = wants_words opts v

-- The options that a list sets.
abbrev pub Wanted : List Opt → Options → Options → Type 0
Wanted opts o o' =
    (o'.ani_port ≡ wants_port opts o.ani_port)
    × (o'.verbose ≡ wants_words opts o.verbose)
    × (o'.cbench ≡ wants_cbench opts o.cbench)

-- `socket`, `bind` and `listen` have worked, with this descriptor.
abbrev pub Listens : Listening → ℕ → Type 0
Listens c fd = (c.socket ≡ some fd) × (c.bind ≡ true) × (c.listen ≡ true)

-- One of them has not.
abbrev pub Deaf : Listening → Type 0
Deaf c = (c.socket ≡ none) ⊎ (c.bind ≡ false) ⊎ (c.listen ≡ false)

-- The descriptor of the listener, if there is one and it is above 0.
abbrev pub above : Option ℕ → List ℕ
above none = []
above (some zero) = []
above (some (suc n)) = suc n ∷ []

-- How `main` goes on, with the reason.
pub data Outcome (exit_set : Bool) (c : Listening) (e : Env) (opts : List Opt)
    : Started → Type 0 where
  shown : asks opts ≡ true → Outcome exit_set c e opts exit_success
  unset : asks opts ≡ false → exit_set ≡ false → Outcome exit_set c e opts exit_failure
  failed :
      (closed : List ℕ)
      → asks opts ≡ false
      → exit_set ≡ true
      → Deaf c ⊎ ((fd : ℕ) × Listens c fd × (e.accept 0 ≡ none))
      → closed ≡ above c.socket
      → Outcome exit_set c e opts (joins_no_thread closed)
  serving :
      (o : Options) (s : State) (fd sw : ℕ)
      → asks opts ≡ false
      → exit_set ≡ true
      → Listens c fd
      → e.accept 0 ≡ some sw
      → s.sw_sockfd ≡ some sw
      → Reachable e s
      → Wanted opts default_options o
      → s.cbench ≡ o.cbench
      → Outcome exit_set c e opts (in_loop o s)

read_options-asks : (opts : List Opt) (o : Options) → read_options opts o ≡ none → asks opts ≡ true
unfolding read_options
read_options-asks [] o e = let no : ⊥ = cc in elim no [ ]
read_options-asks (opt_help ∷ opts) o e = refl
read_options-asks (opt_version ∷ opts) o e = refl
read_options-asks (opt_port number ∷ opts) o e = read_options-asks opts _ e
read_options-asks (opt_quiet ∷ opts) o e = read_options-asks opts _ e
read_options-asks (opt_cbench ∷ opts) o e = read_options-asks opts _ e
read_options-asks (opt_other ∷ opts) o e = read_options-asks opts _ e

read_options-Wanted :
    (opts : List Opt) (o o' : Options) → read_options opts o ≡ some o' → Wanted opts o o'
unfolding read_options
read_options-Wanted [] o o' e =
    let same : o' ≡ o = cc in
    (
      ap (λ (k : Options). k.ani_port) same,
      ap (λ (k : Options). k.verbose) same,
      ap (λ (k : Options). k.cbench) same,
    )
read_options-Wanted (opt_help ∷ opts) o o' e = let no : ⊥ = cc in elim no [ ]
read_options-Wanted (opt_version ∷ opts) o o' e = let no : ⊥ = cc in elim no [ ]
read_options-Wanted (opt_port number ∷ opts) o o' e = read_options-Wanted opts _ o' e
read_options-Wanted (opt_quiet ∷ opts) o o' e = read_options-Wanted opts _ o' e
read_options-Wanted (opt_cbench ∷ opts) o o' e = read_options-Wanted opts _ o' e
read_options-Wanted (opt_other ∷ opts) o o' e = read_options-Wanted opts _ o' e

read_options-asks_not :
    (opts : List Opt) (o o' : Options) → read_options opts o ≡ some o' → asks opts ≡ false
unfolding read_options
read_options-asks_not [] o o' e = refl
read_options-asks_not (opt_help ∷ opts) o o' e = let no : ⊥ = cc in elim no [ ]
read_options-asks_not (opt_version ∷ opts) o o' e = let no : ⊥ = cc in elim no [ ]
read_options-asks_not (opt_port number ∷ opts) o o' e = read_options-asks_not opts _ o' e
read_options-asks_not (opt_quiet ∷ opts) o o' e = read_options-asks_not opts _ o' e
read_options-asks_not (opt_cbench ∷ opts) o o' e = read_options-asks_not opts _ o' e
read_options-asks_not (opt_other ∷ opts) o o' e = read_options-asks_not opts _ o' e

close_both-none : (fd : Option ℕ) → close_both fd none ≡ above fd
unfolding close_both close_one
close_both-none none = refl
close_both-none (some zero) = refl
close_both-none (some (suc n)) = refl

-- What the result of `create_ani_socket` says of its calls.
listens-Listens :
    (c : Listening) (o : Option ℕ)
    → c.socket ≡ o
    → ((listens c o ≡ true) × ((fd : ℕ) × Listens c fd)) ⊎ ((listens c o ≡ false) × Deaf c)
unfolding listens
listens-Listens c none made = inr (refl, inl made)
listens-Listens c (some fd) made = elim (Bool-cases c.bind) [
  | inr unbound ↦ inr (simp unbound, inr (inl unbound))
  | inl bound ↦ elim (Bool-cases c.listen) [
    | inr deaf ↦ inr (simp (bound, deaf), inr (inr deaf))
    | inl hears ↦ inl (simp (bound, hears), (fd, (made, bound, hears)))
  ]
]

module _ (c : Listening) (e : Env) (opts : List Opt) where
  with_socket-Outcome :
      (o : Options)
      → asks opts ≡ false
      → Wanted opts default_options o
      → Outcome true c e opts (with_socket e o (create_ani_socket c))
  unfolding with_socket create_ani_socket create_switch_socket connected
  with_socket-Outcome o serves wanted = elim (listens-Listens c c.socket refl) [
    | inl (made, (fd, works)) ↦ elim (Option-cases (e.accept 0)) [
      | inl fails ↦
          simp (made, fails)
            (failed _ serves refl (inr (fd, works, fails)) (close_both-none c.socket))
      | inr (sw, accepted) ↦
          simp (made, accepted)
            (serving o _ fd sw serves refl works accepted refl (start o.cbench sw) wanted refl)
    ]
    | inr (no_socket, deaf) ↦
        simp no_socket (failed _ serves refl (inl deaf) (close_both-none c.socket))
  ]

  with_options-Outcome :
      (exit_set : Bool) (o : Option Options)
      → read_options opts default_options ≡ o
      → Outcome exit_set c e opts (with_options exit_set c e o)
  unfolding with_options
  with_options-Outcome exit_set none r = shown (read_options-asks opts default_options r)
  with_options-Outcome true (some o) r =
      with_socket-Outcome o (read_options-asks_not opts default_options o r)
        (read_options-Wanted opts default_options o r)
  with_options-Outcome false (some o) r =
      unset (read_options-asks_not opts default_options o r) refl

  -- For any options and whatever the calls return, `main` does one of these. It exits with success, where
  -- the help or the version is asked for. It exits with a failure, where `atexit` fails. Where `socket`,
  -- `bind`, `listen` or `accept` has failed, and `atexit` not, it closes just the descriptor of the
  -- listener, if that is above 0, and comes to `exit_func`, which joins the handle -1. Where all these
  -- calls have worked, it enters its loop, connected to what `accept` gave, in a state from which
  -- `Reachable` starts, with the port, verbose and cbench as the options set them.
  pub ani_main-Outcome : (exit_set : Bool) → Outcome exit_set c e opts (ani_main exit_set c e opts)
  unfolding ani_main
  ani_main-Outcome exit_set = with_options-Outcome exit_set (read_options opts default_options) refl
