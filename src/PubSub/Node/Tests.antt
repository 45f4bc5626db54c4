-- ===== src/PubSub/Node/Tests.antt =====
-- The theorems about `PubSubNode` (software_bus/pubsub.py) at concrete nodes.
use mathlib.Core.List.{zip}
use software_bus.Prelude.{
  ◌≡◌, ◌↔◌, refl, arith, not, ◌&&◌, true, false, [], ◌∷◌, member, distinct, select, ◌==◌, Error,
}
use software_bus.Text.{Text, codes, text_eq}
use software_bus.Text.Split.{split}
use software_bus.SubjectMatcher.{match}
use software_bus.BaseLayer.Node.{Node, new_node, peers_except}
use software_bus.BaseLayer.Node.Runs as Base
use software_bus.BaseLayer.Node.Transfer.{on_downstream_connected}
use software_bus.PubSub.Subscriptions.{get, matching_connections, matching_loop, update_keys}
use software_bus.PubSub.State.{PubSub, new_pub_sub, subscriptions, subscribers, active}
use software_bus.PubSub.Node.{
  error_callback, on_connection_error, publish_targets, unsubscribe_targets,
}
use software_bus.PubSub.Node.Receive.{on_new_connection, on_receive}
use software_bus.PubSub.Node.Runs.{Step, Reach, Reach-Sound}
use software_bus.PubSub.Node.Sound.{Sound, Tables}
use software_bus.PubSub.Node.Depth.{error_callback-on_connection_error}
use software_bus.PubSub.Node.Dropped.{error_callback-member}
use software_bus.PubSub.Node.Publish.{member-publish_targets}
use software_bus.PubSub.Node.Unsubscribe.{Apart, left, told, wanted_from, told-unsubscribe_targets}

-- The connections 1 and 2 are downstream, 3 is upstream; 1 and 3 subscribe to "a".
abbrev three_connections : Node
three_connections = record new_node {
  downstream_connections = 1 ∷ 2 ∷ [];
  upstream_connections = 3 ∷ [];
}

abbrev two_subscribers : PubSub
two_subscribers = record (new_pub_sub []) {
  downstream_subscriptions = (codes "a", 1 ∷ []) ∷ [];
  upstream_subscriptions = (codes "a", 3 ∷ []) ∷ [];
}

two_subscribers-Tables : Tables two_subscribers
unfolding distinct member
two_subscribers-Tables =
    ((refl, (λ e. ground arith), refl, tt), (refl, (λ e. ground arith), refl, tt))

two_subscribers-Apart : Apart (codes "a") two_subscribers
unfolding get member text_eq
two_subscribers-Apart e = ground arith

publish_targets_runs : publish_targets 1 (codes "a") two_subscribers ≡ 3 ∷ []
unfolding publish_targets matching_connections matching_loop update_keys match split zip text_eq
    member select
publish_targets_runs = refl

told-unsubscribe_targets_example :
    told
      (unsubscribe_targets
        (subscribers (codes "a") (left false (codes "a") 1 two_subscribers))
        (active (left false (codes "a") 1 two_subscribers) (peers_except 1 three_connections)))
      3
    ≡ (wanted_from (subscribers (codes "a") two_subscribers) 3
        && not (wanted_from (subscribers (codes "a") (left false (codes "a") 1 two_subscribers)) 3))
unfolding get member text_eq
told-unsubscribe_targets_example =
    told-unsubscribe_targets false (codes "a") 1 3 three_connections two_subscribers
      two_subscribers-Tables two_subscribers-Apart refl refl refl

error_callback-on_connection_error_example :
    error_callback 100 false 1 Error.connection_error (three_connections, two_subscribers)
    ≡ on_connection_error
        (error_callback 100)
        100
        false
        1
        Error.connection_error
        (three_connections, two_subscribers)
error_callback-on_connection_error_example =
    error_callback-on_connection_error 100 false 1 Error.connection_error
      (three_connections, two_subscribers)

error_callback-member_example :
    Tables (error_callback 0 false 1 Error.connection_error (three_connections, two_subscribers)).1
    × (member 1 (
          get (codes "a") (
            subscriptions false
              (error_callback 0 false 1 Error.connection_error
                (three_connections, two_subscribers)).1))
        ≡ false)
error_callback-member_example =
    error_callback-member 0 false 1 Error.connection_error (codes "a")
      (three_connections, two_subscribers) two_subscribers-Tables

member-publish_targets_example :
    (member 3 (publish_targets 1 (codes "a") two_subscribers) ≡ true) ↔ (
      ((3 == 1) ≡ false)
      × ((k : Text) × (match (codes "a") k ≡ true)
          × (member 3 (subscribers k two_subscribers) ≡ true)))
member-publish_targets_example =
    member-publish_targets 1 (codes "a") 3 two_subscribers two_subscribers-Tables

abbrev connected : Node × PubSub
connected =
    on_downstream_connected (on_new_connection (error_callback 100) 100) 1
      (new_node, new_pub_sub [])

-- A connection joins and subscribes to "a".
Reach-Sound_example :
    Sound 100 (on_receive (error_callback 100) 100 50 false 1 (1 ∷ 1 ∷ 0 ∷ 1 ∷ 97 ∷ []) connected)
Reach-Sound_example = Reach-Sound 100 50 [] (
    Reach.then_step (Reach.then_step Reach.here (Step.base (Base.Step.downstream 1)))
      (Step.receive false 1 (1 ∷ 1 ∷ 0 ∷ 1 ∷ 97 ∷ [])))
