-- ===== src/PubSub/Node/Held/Tests.antt =====
-- The messages that `PubSubNode` (software_bus/pubsub.py) holds, in a run.
use software_bus.Prelude.{
  suc, ◌+◌, length, ltb, ◌≡◌, refl, true, false, ◌&&◌, ◌||◌, [], ◌∷◌, ◌++◌, member, update,
}
use software_bus.Text.{codes}
use software_bus.BaseLayer.Node.{Node, new_node}
use software_bus.PubSub.Codec.{Message, publish}
use software_bus.PubSub.State.{PubSub, new_pub_sub}
use software_bus.PubSub.Node.{error_callback}
use software_bus.PubSub.Node.Receive.{receive_message, drain_next, is_routed}
use software_bus.PubSub.Node.Held.{
  start, arrives, drains, others, Counted, rounds, handle_each, Course-held,
}

abbrev message : Message
message = publish (codes "a") (7 ∷ [])

abbrev second : Message
second = publish (codes "b") (8 ∷ [])

abbrev checked : Node × PubSub
checked = (new_node, record (new_pub_sub []) { pending = 3 ∷ [] })

abbrev held : Node × PubSub
held = receive_message (error_callback 1000) 1000 50 true 3 message 10 checked

-- The check has accepted the connection.
abbrev accepted : Node × PubSub
accepted = (held.0, record held.1 { pending = []; draining = 3 ∷ [] })

is_held : (is_routed message && (member 3 (3 ∷ []) || member 3 [])) ≡ true
unfolding member
is_held = refl

-- Another message has arrived before the first is handled.
abbrev two_held : Node × PubSub
two_held = receive_message (error_callback 1000) 1000 50 true 3 second 12 accepted

is_held_too : (is_routed second && (member 3 [] || member 3 (3 ∷ []))) ≡ true
unfolding member
is_held_too = refl

fits_too : ltb 50 ((accepted.1.held 3).size + 12) ≡ false
unfolding receive_message update member
fits_too = refl

first_of_two : (two_held.1.held 3).messages ≡ (message, 10) ∷ (second, 12) ∷ []
unfolding receive_message update member
first_of_two = refl

drains_still : member 3 two_held.1.draining ≡ true
unfolding receive_message update member
drains_still = refl

abbrev one_left : Node × PubSub
one_left = drain_next (error_callback 1000) 1000 3 two_held

Course-held_example :
    ([] ++ (message, 10) ∷ (second, 12) ∷ [] ≡ (message, 10) ∷ [] ++ (one_left.1.held 3).messages)
    × Counted 1000 50 3 one_left
    × (rounds 1000 50 3 (suc (length (one_left.1.held 3).messages)) one_left
        ≡ handle_each 1000 50 3 (one_left.1.held 3).messages one_left)
Course-held_example =
    Course-held 1000 50 3 checked
      (drains
        (arrives true second 12 (others (arrives true message 10 start is_held refl) refl)
          is_held_too fits_too)
        first_of_two drains_still)
      refl
