-- ===== src/BaseLayer/Node.antt =====
-- `BaseLayerNode` of software_bus/base_layer.py. A `Connection` object is a number, with its fields
-- in a store. The layer above has a state `U`, and its callbacks act on both states. One call runs
-- to its end before another task does: the only wait inside is that of `Connection.close`.
pub mod Transfer
pub mod Queues
pub mod Runs
pub mod Relay
pub mod Order
pub mod Tests
use software_bus.Prelude.{
  ℕ, ◌+◌, ◌-◌, ltb, ◌==◌, not, ◌&&◌, Bool, true, false, if◌then◌else◌, Option, none, some, List, [],
  ◌∷◌, ◌++◌, drop, length, any, member, remove, select, update, Result, ok, err, Error,
}
use software_bus.Text.{Text, Bytes, text_eq}
use software_bus.BaseLayer.Framing.{check_payload_length}

-- `send_task`: none or done, or in `_send_loop`, with the data whose sending it awaits, if any.
pub data SendTask : Type 0 where
  stopped : SendTask
  running : Option Bytes → SendTask

-- `written` is what `Connection.send` has handed to the writer.
pub record Connection : Type 0 where
  pub send_queue : List Bytes
  pub queued_bytes : ℕ
  pub send_task : SendTask
  pub is_closing : Bool
  pub written : List Bytes

abbrev pub new_connection : Connection
new_connection = record {
  send_queue = [];
  queued_bytes = 0;
  send_task = stopped;
  is_closing = false;
  written = [];
}

abbrev pub Address : Type 0
Address = Text × ℕ

pub record Node : Type 0 where
  pub upstream_connections : List ℕ
  pub downstream_connections : List ℕ
  pub servers : List Address
  pub listening_addresses : List Address
  pub is_closed : Bool
  pub connection : ℕ → Connection

abbrev pub new_node : Node
new_node = record {
  upstream_connections = [];
  downstream_connections = [];
  servers = [];
  listening_addresses = [];
  is_closed = false;
  connection = λ c. new_connection;
}

abbrev pub address_eq : Address → Address → Bool
address_eq (h, p) (h', p') = text_eq h h' && p == p'

unfoldable pub is_accepting : Text → ℕ → Node → Bool
is_accepting host port n = any (address_eq (host, port)) n.servers

-- `bound_port` is the port that `asyncio.start_server` has bound.
unfoldable pub accept_connection : Text → ℕ → ℕ → Node → Node
unfolding is_accepting
accept_connection host port bound_port n = if is_accepting host port n then n else record n {
  servers = n.servers ++ (host, bound_port) ∷ [];
  listening_addresses = n.listening_addresses ++ (host, bound_port) ∷ [];
}

abbrev pub connections : Bool → Node → List ℕ
connections from_upstream n =
    if from_upstream then n.upstream_connections else n.downstream_connections

abbrev pub set_connections : Bool → List ℕ → Node → Node
set_connections true cs n = record n { upstream_connections = cs }
set_connections false cs n = record n { downstream_connections = cs }

abbrev pub all_connections : Node → List ℕ
all_connections n = n.downstream_connections ++ n.upstream_connections

unfoldable pub peers_except : ℕ → Node → List ℕ
peers_except source n = select (λ c. not (c == source)) (all_connections n)

abbrev pub set_connection : ℕ → Connection → Node → Node
set_connection c x n = record n { connection = update n.connection c x }

-- `Connection.close(discard_unsent=True)`; its tasks are cancelled, or end by themselves.
abbrev pub closed_connection : Connection → Connection
closed_connection x = record x {
  send_queue = [];
  queued_bytes = 0;
  send_task = stopped;
  is_closing = true;
}

unfoldable pub close_socket : ℕ → Node → Node
close_socket c n = set_connection c (closed_connection (n.connection c)) n

-- `_start_connection` for the new object `c`.
unfoldable pub start_connection : Bool → ℕ → Node → Node
start_connection from_upstream c n =
    set_connection c new_connection
      (set_connections from_upstream (connections from_upstream n ++ c ∷ []) n)

unfoldable pub close_connection : ℕ → Node → Node
unfolding close_socket
close_connection c n =
    if member c n.upstream_connections
    then close_socket c (record n { upstream_connections = remove c n.upstream_connections })
    else if member c n.downstream_connections
    then close_socket c (record n { downstream_connections = remove c n.downstream_connections })
    else n

unfoldable pub close_sockets : List ℕ → Node → Node
close_sockets [] n = n
close_sockets (c ∷ cs) n = close_sockets cs (close_socket c n)

unfoldable pub close : Node → Node
close n = record (close_sockets (all_connections n) (record n { is_closed = true })) {
  upstream_connections = [];
  downstream_connections = [];
  servers = [];
  listening_addresses = [];
}

-- What `_relay_to` does to a target with room: a stopped send loop is started.
abbrev pub queued : Bytes → Connection → Connection
queued bytes x = record x {
  send_queue = x.send_queue ++ bytes ∷ [];
  queued_bytes = x.queued_bytes + length bytes;
  send_task = elim x.send_task [ stopped ↦ running none | running w ↦ running w ];
}

-- The top of the loop of `_send_loop`: it ends on an empty queue, or hands the head over.
unfoldable pub begin_send : SendTask → List Bytes → Connection → Connection
begin_send (running none) [] x = record x { send_task = stopped }
begin_send (running none) (bytes ∷ rest) x = record x {
  send_task = running (some bytes);
  written = x.written ++ bytes ∷ [];
}
begin_send task queue x = x

unfoldable pub send_next : ℕ → Node → Node
unfolding begin_send
send_next c n = let x = n.connection c in set_connection c (begin_send x.send_task x.send_queue x) n

-- The data has been taken. A connection closed meanwhile ends the loop.
abbrev pub taken : Bytes → Connection → Connection
taken bytes x = if x.is_closing then record x { send_task = stopped } else record x {
  send_queue = drop 1 x.send_queue;
  queued_bytes = x.queued_bytes - length bytes;
  send_task = running none;
}

unfoldable pub finish_send : SendTask → Connection → Connection
finish_send (running (some bytes)) x = taken bytes x
finish_send task x = x

unfoldable pub send_taken : ℕ → Node → Node
unfolding finish_send
send_taken c n = let x = n.connection c in set_connection c (finish_send x.send_task x) n

abbrev pub stop_sending : ℕ → Node → Node
stop_sending c n = set_connection c (record (n.connection c) { send_task = stopped }) n
