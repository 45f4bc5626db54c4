-- ===== src/BaseLayer/Node/Tests.antt =====
-- Runs of `BaseLayerNode` (software_bus/base_layer.py), and its theorems at concrete nodes.
use software_bus.Prelude.{
  ◌≡◌, ltb, ◌+◌, ◌++◌, ◌⊎◌, Option, refl, true, false, [], ◌∷◌, member, distinct, select, update,
  not, ◌&&◌, ◌==◌, if◌then◌else◌,
}
use software_bus.Text.{Bytes}
use software_bus.BaseLayer.Framing.{check_payload_length}
use software_bus.BaseLayer.Node.{
  running, Node, new_node, start_connection, begin_send, finish_send, send_next, send_taken,
  peers_except,
}
use software_bus.BaseLayer.Node.Transfer.{
  OnNew, relay_to, relay_each, relay_one, default_receive_callback,
  default_connection_error_callback, establish_connection,
}
use software_bus.BaseLayer.Node.Queues.{Queues, IsSound, start_connection-Queues}
use software_bus.BaseLayer.Node.Runs.{
  Keeps, Reach, here, then_step, establish, relay, Reach-Queues, new_node-Queues,
}
use software_bus.BaseLayer.Node.Relay.{connection-default_receive_callback, delivered, listed}
use software_bus.BaseLayer.Node.Order.{history, Traffic, start, queues, next, sent, Traffic-history}

abbrev no_new : OnNew (Unit {0})
no_new up c s = s

abbrev hi : Bytes
hi = 104 ∷ 105 ∷ []

default_callbacks-Keeps : Keeps default_connection_error_callback no_new 100
default_callbacks-Keeps = record { errors = λ up c e s q. q; news = λ up c s q. q }

abbrev connected : Node
connected = start_connection false 2 (start_connection true 1 new_node)

-- The data goes to the other connection only.
relayed :
    let s =
      default_receive_callback default_connection_error_callback 100 1 hi (connected, tt {0}) in
    ((s.0.connection 2).send_queue ≡ hi ∷ []) × ((s.0.connection 1).send_queue ≡ [])
unfolding default_receive_callback relay_to relay_each relay_one peers_except select
    start_connection update check_payload_length
relayed = (refl, refl)

abbrev Started : Node × Unit {0} → Node × Unit {0} → Type 0
Started = Reach default_connection_error_callback no_new 100

abbrev one_relay :
    Started
      (new_node, tt)
      (relay_to default_connection_error_callback 100
        (7 ∷ [])
        hi
        (establish_connection no_new 7 (new_node, tt)).1)
one_relay = then_step (then_step here (establish 7)) (relay (7 ∷ []) hi)

Reach-Queues_example :
    Queues 100
      (relay_to default_connection_error_callback 100
        (7 ∷ [])
        hi
        (establish_connection no_new 7 (new_node, tt)).1).0
Reach-Queues_example =
    Reach-Queues default_connection_error_callback no_new 100 default_callbacks-Keeps one_relay
      (new_node-Queues 100)

connection-default_receive_callback_example :
    (default_receive_callback default_connection_error_callback 100 1 hi
        (connected, tt {0})).0.connection
      2
    ≡ (if listed 2 connected && not (2 == 1)
        then delivered 100 hi (connected.connection 2)
        else connected.connection 2)
unfolding start_connection distinct member check_payload_length
connection-default_receive_callback_example =
    connection-default_receive_callback 100 1 hi (connected, tt) 2 refl refl

-- Two messages are accepted for the connection 1; the first has been sent, the second is being sent.
abbrev relayed_to_1 : Bytes → Node → Node
relayed_to_1 bytes n = (relay_one default_connection_error_callback 100 bytes 1 (n, tt {0})).0

abbrev two_queued : Node
two_queued = relayed_to_1 (33 ∷ []) (relayed_to_1 hi connected)

abbrev being_sent : Node
being_sent = send_next 1 (send_taken 1 (send_next 1 two_queued))

two_sent : (being_sent.connection 1).written ≡ hi ∷ (33 ∷ []) ∷ []
unfolding send_next send_taken begin_send finish_send relay_one start_connection update
two_sent = refl

fits : ltb 100 ((connected.connection 1).queued_bytes + 2) ≡ false
unfolding start_connection update
fits = refl

fits_too : ltb 100 (((relayed_to_1 hi connected).connection 1).queued_bytes + 1) ≡ false
unfolding relay_one start_connection update
fits_too = refl

traffic : Traffic default_connection_error_callback 100 1 connected (hi ∷ (33 ∷ []) ∷ []) being_sent
traffic = next (sent (next (queues (33 ∷ []) tt (queues hi tt start fits) fits_too)))

connected-IsSound : IsSound 100 (connected.connection 1)
connected-IsSound =
    start_connection-Queues 100 false 2 (start_connection true 1 new_node)
      (start_connection-Queues 100 true 1 new_node (new_node-Queues 100)) 1

is_open : (connected.connection 1).is_closing ≡ false
unfolding start_connection update
is_open = refl

Traffic-history_example :
    (history (being_sent.connection 1) ≡ history (connected.connection 1) ++ hi ∷ (33 ∷ []) ∷ [])
    × (((w : Option Bytes) × ((being_sent.connection 1).send_task ≡ running w))
        ⊎ ((being_sent.connection 1).written
            ≡ history (connected.connection 1) ++ hi ∷ (33 ∷ []) ∷ []))
Traffic-history_example =
    Traffic-history default_connection_error_callback 100 1 traffic connected-IsSound is_open
