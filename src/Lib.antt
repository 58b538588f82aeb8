-- ===== src/Lib.antt =====
-- A verification library for DAIM, the OpenFlow 1.0 controller ANI that serves one switch, in its
-- versions 4.1 (ANIv41/), 2.1 (ANIv21/) and 1 (ANIv1/).
--
-- The program. main (ANIv41/ani.cpp) waits for a switch to connect, and calls communicate_with_switch
-- (ANIv41/_con.cpp) for ever. That reads bytes from the switch (read_from_switch), hands them to
-- send_information, and starts again with a new connection when it cannot read. send_information calls
-- an action for the type of a message: action_hello, action_features_reply, action_packout or
-- action_echo. The actions keep four tables of the class object_list (ANIv41/linked.cpp): hosts, ports,
-- links and sw_replys, and they answer with messages that ANIv41/com.cpp builds. A second thread,
-- node_share_func, sends echo and node messages to the neighbours; links_mutex guards what both use.
--
-- The files.
--   Prelude: names of the libraries, tests on numbers, lists over native numbers.
--   Wire: buffers and byte order of a little-endian host (Buffer, Order), the constants of openflow.h,
--     eth.h and _con.h (Ofp), the builders of com.cpp (Build), the calls of create_of_flow_mod (Rule),
--     the messages byte for byte (Format, Bytes), and the LLDP messages of _con.cpp (Anim).
--   Linked: the methods of linked.cpp over a heap of nodes and payloads (Heap, Ops), the chain a list
--     stands for (Chain), and what the methods do to it (Add, Walk, Free, Fail,
--     Splice, Unlink, Remove).
--   Table: the same methods on the objects alone, as the controller sees them (Ops), the search loops
--     of the controller (Loops), and the methods of Linked against them (Represents,
--     Refines, Failures).
--   Con: the globals and the outside world (State), the actions (Reply, Features, PacketIn, Branches),
--     the loops over them (Dispatch), and the theorems: the messages (Sending, Greeting), the ports
--     (Ports), the hosts (Hosts, Learning), the frames (Forwarding, Packet, Lldp, Neighbours), what is
--     left where memory runs out (Spared, Managed), the invariant (Invariant, Safety, Partly), the
--     mutex (Free), the loop for cbench and its messages (Cbench, Messages), whole calls (Reconnect,
--     Serve), and node_share_func: its rounds (Share, Sharing, Rounds), one period (Period), all threads
--     together (Threads, Orderly, Stuck), a reconnection inside its loop (Race), main of ani.cpp up to
--     its loop (Start, Starting), and its exit (Exit).
--   Ani1: ANIv1/main.cpp, the first version in one file: the messages that it puts together in place
--     (Build), the actions (Handlers), its loops and main (Main); the theorems on messages (Sending,
--     Greeting), frames (Packet, Managed), the agreement with version 4.1 (Agrees), and its loops (Loop,
--     Serving).
--   Ani21: ANIv21/_con.cpp, where it is not the code of ANIv41/_con.cpp: the text for the neighbours
--     (Text), the actions and the thread (Actions), the loops over them (Dispatch); the theorems on the
--     text (Reading), the thread (Sharing, Greets), the loops (Loop, Partly), all threads together (Threads,
--     Stale), and its exit (Exit).
--   Relay: DAIM_stage1/stage0.cpp, the relay between a switch and a controller: its sockets (Sockets),
--     the loops that copy (Copy, Stream), main (Main), and the handlers of its signals (Signals).
--   Examples: the theorems at concrete inputs.
--
-- How state corresponds. Con.State.State is a record of the globals of _con.cpp with their names, and
-- a trace of the calls of send, recv, accept, new and close. Con.State.Env is the outside: what these
-- calls return. A function of the program is a function from State to a Run, which ends with a result,
-- at undefined behaviour of a table, in a wait for a mutex that is held, by exit, or without fuel. A
-- function that ends with no return gives no_return, and Env.leftover says what its
-- caller makes of that. The bytes that are read are a function from offsets to bytes; what lies behind
-- them is 0, as memset left it. A features reply whose ports lie behind the 3072000 bytes of read_buffer,
-- as for every length below 32, is undefined behaviour of the model as well.
--
-- Fuel. cbench_loop runs on fuel; the loop ends within one more round than it has bytes, if no message
-- states the length 0, and a message that does can keep it from ending. The loops of Linked run on fuel
-- that has to exceed the number of cells, and their theorems say so; find_object gives itself enough.
--
-- Threads. Threads.Step lets the main thread read, reconnect or act on any message, and any sharing
-- thread make one round, in any order. A part under links_mutex is one step: what the main thread does
-- to the tables of that part waits for the mutex, but for a reconnection, which frees them without it.
-- Threads.Step lets a reconnection fall in between these parts only; Race shows what becomes of a part
-- that a reconnection falls into. A step that has to wait is not made. Ani21.Threads does the same for
-- version 2.1, which has no mutex: an action is one step there too.
--
-- The versions. ANIv1 and ANIv21 declare a part of the globals of ANIv41 with the same meaning, and work
-- on the same State; sw_in is the only one that ANIv21 adds. Functions that are the same code in two
-- versions have one definition. ANIv1 copies messages into write_buffer without a check, and its model
-- is undefined where that leaves the 10240 bytes of the buffer. The branches of action_packout for IPv6,
-- ARP and IP in ANIv21 are the code of ANIv41, and stand for it; only the dispatch to them and the branch
-- for LLDP are modelled anew.
--
-- What is not modelled. The calls of sleep and sigaction, and the printing, but for the text that
-- ANIv21 prints; the limit of read_buffer where the fixed fields of a message at its very end
-- cross it (one recv stays within its 3072000 bytes); and the Mininet scripts. Whether pthread_join
-- comes to an end is a parameter of exit_func; the exits of main before a thread is started join the
-- handle -1, and the model ends there. Where a function ends without a return, its caller's test of that
-- value comes out the same way throughout a run, as Env.leftover says. main of ANIv21/ani.cpp is that of
-- ANIv41/ani.cpp, but for the sizes that it sets for two tables only.

pub mod Prelude
pub mod Wire
pub mod Linked
pub mod Table
pub mod Con
pub mod Ani1
pub mod Ani21
pub mod Relay
pub mod Examples
