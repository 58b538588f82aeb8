-- ===== src/Examples/Controller.antt =====
-- The actions of the controller on single messages.
use daim.Prelude.{◌≡◌, refl, true, false, none, some, [], ◌∷◌, arith, if◌then◌else◌}
use daim.Wire.Order.{ntohs, ntohl}
use daim.Wire.Buffer.{Mac, get16, get32}
use daim.Table.Ops.{on}
use daim.Table.Loops.{found}
use daim.Con.State.{State, undefined, and_then, initial, bytes_done, ret_neg1, no_return, ok, Ends}
use daim.Con.Reply.{xid_of, action_hello}
use daim.Con.Features.{action_features_reply}
use daim.Con.PacketIn.{PacketIn, packet_in, body, same_mac}
use daim.Con.Branches.{learn, last_test, frame_branch, ip6_branch, action_packout}
use daim.Con.Share.{node_loop}
use daim.Con.Dispatch.{reconnect}
use daim.Con.Race.{node_loop-reconnect}
use daim.Con.Greeting.{Greeted, action_hello-Greeted}
use daim.Con.Ports.{Recorded, action_features_reply-no_port, action_features_reply-Recorded}
use daim.Con.Hosts.{host_of, sender}
use daim.Con.Learning.{Distinct, learn-host_of}
use daim.Con.Forwarding.{Handled}
use daim.Con.Packet.{decide, hosts_after, action_packout-Handled}
use daim.Con.Lldp.{Announced, action_packout-Announced}
use daim.Examples.Inputs.{
  calm, all_granted, with_buffer, arp_request, lldp_request, ip6_frame, one_port, no_port,
}

action_hello-Greeted_example :
    Greeted
      (with_buffer arp_request)
      (xid_of (with_buffer arp_request) 0)
      (bytes_done 8)
      (bytes_done 8)
      (action_hello calm 0 (with_buffer arp_request))
action_hello-Greeted_example = action_hello-Greeted calm 0 (with_buffer arp_request)

action_features_reply-Recorded_example :
    Ends
      (Recorded calm (with_buffer one_port) 0 1)
      (action_features_reply calm 0 (with_buffer one_port))
unfolding get16 ntohs
action_features_reply-Recorded_example =
    action_features_reply-Recorded calm 0 1 (with_buffer one_port) all_granted refl (omega arith)
      (omega arith) (omega arith) refl refl refl

action_features_reply-no_port_example :
    action_features_reply calm 0 (with_buffer no_port)
    ≡ ok ret_neg1
        (record (with_buffer no_port) { transaction_id = 2; links_mutex = true; no_of_ports = 0 })
unfolding get16 ntohs xid_of get32 ntohl
action_features_reply-no_port_example =
    action_features_reply-no_port calm 0 (with_buffer no_port) refl (omega arith) (omega arith)

abbrev request : PacketIn
request = record {
  of_buffer = 0;
  xid = 9;
  buffer_id = 300;
  in_port = 3;
  dst = record { a0 = 255; a1 = 255; a2 = 255; a3 = 255; a4 = 255; a5 = 255 };
  src = record { a0 = 0; a1 = 0; a2 = 0; a3 = 0; a4 = 0; a5 = 1 };
  eth_type = 0x0806;
}

learn-host_of_example :
    Ends
      (λ _ s'.
        ((mac : Mac)
          → host_of mac s'.hosts.items
            ≡ (if same_mac request.src mac then some (sender (initial false) request 10) else none))
        × Distinct s'.hosts.items)
      (learn calm request 10 (initial false))
unfolding found
learn-host_of_example = learn-host_of calm request 10 (initial false) all_granted refl tt

action_packout-Handled_example :
    let s = with_buffer arp_request in
    Ends
      (λ r s'.
        (r ≡ last_test s')
        × Handled calm
            (packet_in s 0)
            (decide s (packet_in s 0))
            (hosts_after s (packet_in s 0))
            s
            s')
      (action_packout calm 0 s)
unfolding packet_in get16 ntohs
action_packout-Handled_example =
    action_packout-Handled calm 0 (with_buffer arp_request) all_granted refl refl

action_packout-Announced_example :
    let s = with_buffer lldp_request in
    Ends
      (λ r s'.
        (r ≡ last_test s') × Announced (packet_in s 0) (s.read_buffer (body (packet_in s 0))) s s')
      (action_packout calm 0 s)
unfolding packet_in get16 ntohs
action_packout-Announced_example =
    action_packout-Announced calm 0 (with_buffer lldp_request) all_granted refl refl refl refl

-- An IPv6 frame, to which the controller does nothing outside cbench.
abbrev ip6_state : State
ip6_state = with_buffer ip6_frame

ip6_run : action_packout calm 0 ip6_state ≡ ok no_return (record ip6_state { transaction_id = 9 })
unfolding action_packout packet_in frame_branch ip6_branch get16 ntohs xid_of get32 ntohl
ip6_run = refl

-- The thread handles the reply of its port 2.
abbrev walking : State
walking = record (initial false) {
  sw_sockfd = some 4;
  links_mutex = true;
  sw_replys = record {
    items = record { port_no = 2; rec = true } ∷ [];
    cursor = on 0;
    broken = false;
  };
}

node_loop-reconnect_example :
    and_then (reconnect calm walking) (λ _ s. node_loop calm 2 s) ≡ undefined
node_loop-reconnect_example =
    node_loop-reconnect calm 7 0 1 (record { port_no = 2; rec = true }) [] walking refl refl refl
      refl
