-- ===== src/Examples/Relay.antt =====
-- The relay with descriptors 3, 4 and 5.
use daim.Prelude.{ℕ, zero, suc, ◌≡◌, refl, true, none, some, [], ◌∷◌, length}
use daim.Relay.Sockets.{Setup}
use daim.Relay.Copy.{
  Read, read_error, read_bytes, Ends, idle, going, copy_loop, after_read, after_write, first_bytes,
  round,
}
use daim.Relay.Stream.{InOrder, copy_loop-InOrder, copy_loop-end_of_stream}
use daim.Relay.Main.{in_child, Ready, relay_main, sockets_of, all_sockets, relay_main-sockets}

-- Two reads give bytes, the third one fails.
abbrev some_reads : ℕ → Read
some_reads zero = read_bytes (1 ∷ 2 ∷ [])
some_reads (suc zero) = read_bytes (3 ∷ [])
some_reads (suc (suc n)) = read_error

abbrev ends : Ends
ends = record { read = some_reads; write = λ k bs. some (length bs) }

abbrev ended : Ends
ended = record { read = λ k. read_bytes []; write = λ k bs. none }

abbrev setup : Setup
setup = record {
  app_socket = some 3;
  bind = true;
  listen = true;
  accept = some 4;
  con_socket = some 5;
  gethostbyname = true;
  connect = true;
}

setup-Ready : Ready setup 3 4 5
setup-Ready = record {
  app_works = refl;
  bind_works = refl;
  listen_works = refl;
  accept_works = refl;
  con_works = refl;
  gethostbyname_works = refl;
  connect_works = refl;
}

-- Three rounds of the child.
three_rounds : (copy_loop ends 3 (going, idle)).1.delivered ≡ 1 ∷ 2 ∷ 3 ∷ []
unfolding copy_loop round after_read after_write first_bytes
three_rounds = refl

copy_loop-InOrder_example : InOrder (copy_loop ends 10 (going, idle))
copy_loop-InOrder_example = copy_loop-InOrder ends 10 (going, idle) (λ n bs. refl) refl

copy_loop-end_of_stream_example :
    copy_loop ended 1000 (going, idle) ≡ (going, record idle { reads = 1000 })
copy_loop-end_of_stream_example = copy_loop-end_of_stream ended 1000 idle (λ n. refl)

relay_main-sockets_example :
    sockets_of (relay_main setup in_child ends ended 10) ≡ all_sockets 3 4 5
relay_main-sockets_example = relay_main-sockets setup in_child ends ended 10 3 4 5 setup-Ready
