-- ===== src/Lib.antt =====
-- The software bus (Python package src/software_bus): a publish/subscribe and request/reply bus over
-- TCP, whose nodes form a tree.
--
-- The parts, from the lowest:
-- - A connection carries frames: a payload after its length in 4 bytes. A node of the base layer
--   (BaseLayerNode) accepts and establishes connections, reads their frames in one loop each, and
--   queues what it relays on each target, with one send loop each. A connection that fails, or whose
--   queue would pass its limit, is taken out of the node, reported to the layer above by a callback,
--   and closed.
-- - The subject matcher compares a publish's subject with a subscribed one, part by part.
-- - A publish/subscribe node (PubSubNode) stands on a base layer node: it decodes what that receives,
--   keeps per subject the connections that subscribe, passes subscriptions on, routes publishes to the
--   matching connections, and asks its neighbours, before it accepts an upstream connection, whether
--   the new connection would close a cycle.
-- - On these stand the clients (BaseLayerClient, PubSubClient, RequestReplyClient), the scripts and
--   bus_check.
--
-- The files, and what they model:
-- - Prelude and its children: tests on numbers, lists, results (Error has one constructor for each kind
--   of exception that the code tells apart; messages of exceptions are left out), sets and stores.
-- - Text, Text/Split, Text/BigEndian, Text/Utf8 and its children: Python's str as a list of code
--   points, bytes as a list of numbers, and what the code uses of them: str.split, int.to_bytes,
--   int.from_bytes, str.encode and bytes.decode for UTF-8.
-- - SubjectMatcher, with Laws and Tests: src/software_bus/subject_matcher.py.
-- - BaseLayer/Framing, with Stream and Tests: Connection.send, Connection.receive,
--   check_payload_length and the reading of BaseLayerNode._relay_loop, src/software_bus/base_layer.py.
--   A stream is what has arrived before the peer's end of file. receive_all reads it by fuel, its
--   length plus one, which is enough since each frame takes 4 bytes at least.
-- - BaseLayer/Node: the state of BaseLayerNode and of its Connection objects, and the operations that
--   act on them. BaseLayer/Node/Transfer: the operations that send or call the layer above, which is a
--   state of any type and two callbacks (OnError, OnNew). BaseLayer/Node/Queues, Order, Relay and Runs:
--   the send queues, the order of what is written, the default routing, and runs: sequences of steps
--   (Step, Reach) in any order, of callers, of send loops and of failures. What is asked there of the
--   layer above is the record Keeps, which PubSub/Node/Runs fills.
-- - BaseLayer/Client, with Laws and Tests: BaseLayerClient of src/software_bus/client.py, and what has
--   been done with its connections, as steps in any order.
-- - PubSub/Codec, with children: the wire format of src/software_bus/pubsub.py, encode_message and
--   decode_message. PubSub/Subscriptions, with children: _add_subscriber, _discard_subscriber,
--   _matching_connections. PubSub/Query, with children: _Query.
-- - PubSub/State: the fields of PubSubNode. PubSub/Node: its routing (_send_to, _unsubscribe,
--   _drop_connection, _handle_subscription, _handle_publish, close_connection, the connection error
--   callbacks). PubSub/Node/Receive: _on_receive and what it dispatches to, the new connection
--   callbacks, _answer_now and _handle_query, the loop of _activate, close. PubSub/Node/Kept, Handled
--   and HeldKept say once how a property is carried through all of these; Depth, Sound, Dropped, Publish,
--   Unsubscribe, Held and Runs use them.
-- - PubSub/Check: the cycle check, which establish_connection runs on a new upstream connection, as a
--   coroutine per connection: Stage says at which await it is, Wake how that await ends, wake what
--   follows up to the next. The task that waits for the lock ends in a step of its own, since a check
--   that is cancelled between this step and its own next one leaves the lock held. Its children:
--   Protocol has the moves that a check may make, Attempt and Follows are about wake, Runs and Attempts
--   about runs in which checks begin and go on in any order and the rest of the node changes its state
--   in any way.
-- - PubSub/Client, with Registry, Laws and Tests: the registrations of PubSubClient, what it sends for
--   them, and which callbacks it calls. What the client below it does with a message is an argument.
--   PubSub/Client/Sessions: its calls from await to await, and runs in which they overlap.
-- - RequestReply, with Laws and Tests: the request message, the derived subjects and the checks on them
--   of src/software_bus/request_reply.py.
-- - RequestReply/Accept: the checks of send_request and send_reply, and on_request.
-- - RequestReply/Acceptors: accept_request and stop_accept_request from await to await, on
--   PubSub/Client/Sessions. Its children: Kept says when a change keeps the registrations of the
--   acceptors in step with them, Calls is about each call, Runs about all calls in any order.
-- - RequestReply/Waits: the pending requests of RequestReplyClient, what begins and ends their waits,
--   and what their callbacks are called with. Its children: Proper and Kept for each method, Runs for
--   steps in any order.
-- - BusCheck/Cycles: find_cycles and _tree_path of src/software_bus/bus_check.py. Its fuel is the number
--   of pids and links, plus 2: a path of parents is no longer than the links that have joined groups,
--   and the search enters a pid once. Children: Spec says what is to be reported, Root is about root,
--   Walk and Search about _tree_path, Together about the groups, Laws about the loop.
-- - BusCheck/Ends: addresses and dicts keyed by the ends of connections. BusCheck/Links: drop_launchers,
--   find_links and check; its children Spec, Laws, Launchers and Checked. BusCheck/Report: format_report,
--   on Text/Decimal, str of a number, whose fuel is the number plus 1: each step divides it by 10.
--   BusCheck/Run: run, with the exit status. BusCheck/Kinds: node_kind.
-- - Scripts: what the scripts (src/software_bus/bl_client.py, ps_publish.py, ps_subscribe.py,
--   rr_request.py, rr_reply.py, and the servers by run_server) await, as lists of calls, with
--   run_until_connection_lost, check_subjects, connect, repeat and run_server of
--   src/software_bus/_cli.py. Its children: Clients has the clients' scripts, Servers run_server,
--   Requesting what rr_request does with the replies, on the waits of RequestReply/Waits; Laws and
--   Servers/Laws say how scripts and servers end.
-- - Cli, with Laws and Tests: _keep_connected of src/software_bus/_cli.py, as a function of how its
--   attempts end. Cli/Arguments: parse_address, parse_bool, parse_subject_list; what they use of Unicode
--   tables is an argument.
--
-- A Connection object is a number, a dict a list of its items or a function. A coroutine is a function
-- from the state to the state: between its awaits nothing else runs, and the awaits inside these
-- coroutines wait for nothing but the callbacks and the closing of a socket. What is interleaved is
-- the steps of Runs; in PubSub/Node/Runs a pending connection may be accepted at any time. Where the
-- callback of a failed connection sends, it may find a further failed connection. error_callback has the
-- number of connections as its depth for this, and each such failure takes a connection off the node's
-- lists first; PubSub/Node/Depth is about that. The limits of send queues and held messages are
-- parameters.
--
-- Not modelled: sockets, the event loop, timers and logging; what happens while Connection.close waits
-- for its writer; argparse and parse_timeout, and what the scripts print; of bus_check what asks psutil
-- (collect).
pub mod Prelude
pub mod Text
pub mod SubjectMatcher
pub mod BaseLayer
pub mod PubSub
pub mod RequestReply
pub mod BusCheck
pub mod Cli
pub mod Scripts
