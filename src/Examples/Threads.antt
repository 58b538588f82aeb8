-- ===== src/Examples/Threads.antt =====
-- The thread that shares nodes, alone and beside the main thread.
use daim.Prelude.{ℕ, ◌≡◌, refl, inl, true, false, some, [], ◌∷◌}
use daim.Table.Ops.{empty_table, rewound}
use daim.Con.State.{State, initial, ok, deadlock, bytes_done, Ends}
use daim.Wire.Buffer.{zeros}
use daim.Con.Features.{rounds, action_features_reply}
use daim.Con.Stuck.{stay, go, Later-deadlock}
use daim.Con.Dispatch.{goes_on, filled, read_from_switch}
use daim.Con.Invariant.{Sound}
use daim.Con.Share.{ThreadPc, begin, nodes, waiting, showing, share}
use daim.Con.Sharing.{request_format, node_format, share_rounds}
use daim.Con.Period.{share_rounds-period}
use daim.Con.Free.{Freed}
use daim.Con.Rounds.{Ready}
use daim.Con.Orderly.{Reached-ends}
use daim.Con.Threads.{System, Step, reads, at_start, Reached-Sound}
use daim.Examples.Inputs.{calm, scarce, scarce-Spared}

-- A switch of two ports; a neighbour has answered on the port 2.
abbrev two_ports : State
two_ports = record (initial false) {
  switch_id = 5;
  no_of_ports = 2;
  sw_replys = record {
    items = record { port_no = 2; rec = true } ∷ [];
    cursor = rewound;
    broken = false;
  };
}

share_rounds-period_example :
    share_rounds calm 28 begin two_ports
    ≡ ok begin (record two_ports {
      links_mutex = false;
      anim_node_counter = 21;
      sent = node_format 5 2 ∷ request_format 2 ∷ request_format 1 ∷ [];
      sw_replys = empty_table;
      links = empty_table;
    })
unfolding rounds
share_rounds-period_example = share_rounds-period calm two_ports refl refl refl refl refl

abbrev first_system : System
first_system = record {
  main = record (initial false) { sw_sockfd = some 5; accepts = 1 };
  sharing = [];
}

Reached-Sound_example : Sound first_system.main
Reached-Sound_example = Reached-Sound scarce scarce-Spared first_system (at_start false 5)

Reached-ends_example :
    Ends (λ _ s'. Freed first_system.main s') (goes_on scarce 10 0 first_system.main)
    × ((pc : ThreadPc) → Ends (λ _ s'. Ready s') (share scarce pc first_system.main))
Reached-ends_example =
    Reached-ends scarce scarce-Spared first_system (at_start false 5) 10 0 tt refl (inl refl)

-- The mutex has been left locked, and the switch closes its connection.
abbrev locked : State
locked = record first_system.main { links_mutex = true }

abbrev closed_by_switch : State
closed_by_switch = record locked {
  recvs = 1;
  read_buffer = filled (bytes_done 0) zeros;
  read_buffer_len = bytes_done 0;
}

a_read :
    Step scarce
      (record { main = locked; sharing = [] })
      (record { main = closed_by_switch; sharing = [] })
unfolding read_from_switch
a_read = reads locked closed_by_switch [] false refl

locked-Sound : Sound locked
locked-Sound = record {
  hosts_whole = refl;
  ports_whole = refl;
  ports_start = refl;
  links_whole = refl;
  replys_whole = refl;
  links_start = refl;
  replys_start = refl;
  distinct = tt;
}

Later-deadlock_example :
    (closed_by_switch.links_mutex ≡ true)
    × ((of_buffer : ℕ) → action_features_reply scarce of_buffer closed_by_switch ≡ deadlock)
    × (share scarce begin closed_by_switch ≡ deadlock)
    × (share scarce nodes closed_by_switch ≡ deadlock)
    × (share scarce waiting closed_by_switch ≡ deadlock)
    × (share scarce showing closed_by_switch ≡ deadlock)
Later-deadlock_example =
    Later-deadlock scarce scarce-Spared (record { main = locked; sharing = [] })
      (record { main = closed_by_switch; sharing = [] }) locked-Sound refl
      (go _ _ _ (stay _) a_read)
