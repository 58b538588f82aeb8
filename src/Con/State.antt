-- ===== src/Con/State.antt =====
-- The globals of ANIv41/_con.cpp, what the program takes from outside, and runs over both.
use daim.Prelude.{ℕ, ◌-◌, ◌^◌, Bool, true, false, Option, none, some, List, [], ◌∷◌, if◌then◌else◌}
use daim.Wire.Order.{ntohs}
use daim.Wire.Buffer.{Buffer, Mac, zeros, get16, bytes}
use daim.Table.Ops.{Table, Grant, empty_table}

-- `struct switch_port`.
pub record SwitchPort : Type 0 where
  pub datapath_id : ℕ
  pub port_no : ℕ
  pub mac_addr : Mac

-- `struct switch_host`.
pub record SwitchHost : Type 0 where
  pub datapath_id : ℕ
  pub port_no : ℕ
  pub mac_addr : Mac
  pub ip_addr : ℕ

-- `struct switch_reply`.
pub record SwitchReply : Type 0 where
  pub port_no : ℕ
  pub rec : Bool

-- `struct net_node`.
pub record NetNode : Type 0 where
  pub datapath_id : ℕ
  pub port_no : ℕ

-- `struct switch_link`.
pub record SwitchLink : Type 0 where
  pub node_a : NetNode
  pub node_b : NetNode

-- `struct switch_info` of ANIv21/_con.h.
pub record SwitchInfo : Type 0 where
  pub datapath_id : ℕ
  pub no_of_ports : ℕ

-- The result of `send` or `recv`: -1, or a number of bytes.
pub data Count : Type 0 where
  error : Count
  bytes_done : ℕ → Count

-- Bytes given to one call of `send`.
abbrev pub Message : Type 0
Message = List ℕ

-- What one call of `recv` returns and the bytes it stores.
pub record Received : Type 0 where
  pub count : Count
  pub content : Buffer

-- What the program does not decide. `send` is given the messages so far, the last first; `recv`,
-- `accept` and `grant` are numbered by their calls (`accept` is `none` on failure). `leftover` says
-- whether what a function leaves behind that ends with no `return` compares equal to -1.
pub record Env : Type 0 where
  pub send : List Message → Count
  pub recv : ℕ → Received
  pub accept : ℕ → Option ℕ
  pub grant : ℕ → Grant
  pub leftover : Bool

-- The globals, and the calls to the outside so far. `links_mutex`: whether it is held.
pub record State : Type 0 where
  pub cbench : Bool
  pub sw_sockfd : Option ℕ
  pub hosts : Table SwitchHost
  pub ports : Table SwitchPort
  pub links : Table SwitchLink
  pub sw_replys : Table SwitchReply
  pub links_mutex : Bool
  pub anim_node_counter : ℕ
  pub read_buffer : Buffer
  pub read_buffer_len : Count
  pub write_buffer : Buffer
  pub write_buffer_len : Count
  pub transaction_id : ℕ
  pub switch_id : ℕ
  pub no_of_ports : ℕ  -- the bits of an `int`
  pub sent : List Message
  pub recvs : ℕ
  pub accepts : ℕ
  pub allocations : ℕ
  pub closed : List ℕ  -- descriptors given to `close`
  pub threads : ℕ  -- calls of `pthread_create` for `node_share_func`
  pub sw_in : SwitchInfo  -- of ANIv21 only

-- The globals at the start of `main`, but for the listening socket.
abbrev pub initial : Bool → State
initial cbench = record {
  cbench = cbench;
  sw_sockfd = none;
  hosts = empty_table;
  ports = empty_table;
  links = empty_table;
  sw_replys = empty_table;
  links_mutex = false;
  anim_node_counter = 0;
  read_buffer = zeros;
  read_buffer_len = bytes_done 0;
  write_buffer = zeros;
  write_buffer_len = bytes_done 0;
  transaction_id = 0;
  switch_id = 0;
  no_of_ports = 2 ^ 32 - 1;
  sent = [];
  recvs = 0;
  accepts = 0;
  allocations = 0;
  closed = [];
  threads = 0;
  sw_in = record { datapath_id = 0; no_of_ports = 0 };
}

-- What an `int` function returns: 0, -1, or nothing, where it ends with no `return`.
pub data Ret : Type 0 where
  ret_0 ret_neg1 no_return : Ret

-- The test `f (...) == -1` of a caller.
abbrev pub is_neg1 : Env → Ret → Bool
is_neg1 e ret_0 = false
is_neg1 e ret_neg1 = true
is_neg1 e no_return = e.leftover

-- How a run ends: with a result, at something undefined, waiting for a mutex that is held, by `exit`,
-- or at the end of the fuel.
pub data Run (X : Type 0) : Type 0 where
  ok : X → State → Run X
  undefined : Run X
  deadlock : Run X
  exited : State → Run X
  out_of_fuel : Run X

abbrev pub M : Type 0 → Type 0
M X = State → Run X

module _ {X : Type 0} where
  abbrev pub pure : X → M X
  pure x s = ok x s

  abbrev pub and_then : {Y : Type 0} → Run X → (X → M Y) → Run Y
  and_then (ok x s) k = k x s
  and_then undefined k = undefined
  and_then deadlock k = deadlock
  and_then (exited s) k = exited s
  and_then out_of_fuel k = out_of_fuel

  infixl 5 ◌>>=◌ ◌>>◌
  abbrev pub ◌>>=◌ : {Y : Type 0} → M X → (X → M Y) → M Y
  m >>= k = λ s. and_then (m s) k

  abbrev pub ◌>>◌ : {Y : Type 0} → M X → M Y → M Y
  m >> n = m >>= λ _. n

  -- A table operation that may be undefined, on a part of the state.
  abbrev pub defined : {T : Type 0} → Option (X × T) → (T → State) → Run X
  defined none put = undefined
  defined (some (x, t)) put = ok x (put t)

-- Total correctness of a run: it has a defined behaviour, comes to its end, and ends like this.
abbrev pub Ends : {X : Type 0} → (X → State → Type 0) → Run X → Type 0
Ends P (ok x s) = P x s
Ends P undefined = ⊥
Ends P deadlock = ⊥
Ends P (exited s) = ⊥
Ends P out_of_fuel = ⊥

-- `write_buffer_len = send (sw_sockfd, write_buffer, ntohs (((ofp_header *) write_buffer)->length), 0)`.
unfoldable pub send_write_buffer : Env → State → State
send_write_buffer e s =
    let sent = bytes s.write_buffer 0 (ntohs (get16 s.write_buffer 2)) ∷ s.sent in
    record s { sent = sent; write_buffer_len = e.send sent }

-- `send (sw_sockfd, b, n, 0)` of another buffer, whose result is only reported.
unfoldable pub send_buffer : Env → Buffer → ℕ → State → State
send_buffer e b n s = record s { sent = bytes b 0 n ∷ s.sent }

-- `pthread_mutex_lock`, which waits where the mutex is held, be it by the thread itself.
abbrev pub lock : M (Unit {0})
lock s = if s.links_mutex then deadlock else ok tt (record s { links_mutex = true })

abbrev pub unlock : M (Unit {0})
unlock s = ok tt (record s { links_mutex = false })
