-- ===== src/PubSub/Node.antt =====
-- How `PubSubNode` (software_bus/pubsub.py) routes subscriptions and publishes over its base layer
-- node. `limit` is the base layer's send_queue_limit.
pub mod Kept
pub mod Depth
pub mod Receive
pub mod Sound
pub mod Handled
pub mod Runs
pub mod Unsubscribe
pub mod Dropped
pub mod Publish
mod HeldKept
mod Held
pub mod Tests
use software_bus.Prelude.{
  ℕ, zero, suc, ◌+◌, ◌-◌, not, ◌&&◌, ltb, Bool, true, false, if◌then◌else◌, Option, none, some,
  List, [], ◌∷◌, ◌++◌, length, member, select, Result, ok, err, Error, ◌==◌, update,
}
use software_bus.Text.{Text, Bytes, text_eq}
use software_bus.BaseLayer.Node.{Node, all_connections, peers_except, close_connection}
use software_bus.BaseLayer.Node.Transfer.{OnError, OnNew, relay_to}
use software_bus.PubSub.Codec.{Message, subscription, publish, hello, encode_message}
use software_bus.PubSub.Subscriptions.{add_subscriber, discard_subscriber, matching_connections}
use software_bus.PubSub.State.{
  PubSub, subscriptions, set_subscriptions, subscribers, active, forget_connection, subjects_of,
  new_pending, nothing_held,
}

-- Whom to tell that a subject is no longer wanted, given who still subscribes; none: nobody.
abbrev pub unsubscribe_targets : List ℕ → List ℕ → Option (List ℕ)
unsubscribe_targets [] others = some others
unsubscribe_targets (c ∷ []) others = some (c ∷ [])
unsubscribe_targets (c ∷ d ∷ cs) others = none

-- The targets of a publish.
unfoldable pub publish_targets : ℕ → Text → PubSub → List ℕ
publish_targets source subject u =
    select (λ c. not (c == source))
      (matching_connections subject u.downstream_subscriptions
        ++ matching_connections subject u.upstream_subscriptions)

module _ (on_error : OnError PubSub) (limit : ℕ) where
  -- `encode_message` refuses no message of a node: its subjects are decoded ones, its ids have 16
  -- bytes.
  unfoldable pub send_to : List ℕ → Message → Node × PubSub → Node × PubSub
  send_to targets message s = elim (encode_message message) [
    | ok bytes ↦ relay_to on_error limit targets bytes s
    | err e ↦ s
  ]

  unfoldable pub tell : Option (List ℕ) → Text → Node × PubSub → Node × PubSub
  tell none subject s = s
  tell (some targets) subject s = send_to targets (subscription subject false) s

  unfoldable pub unsubscribe : Bool → Text → ℕ → Node × PubSub → Node × PubSub
  unsubscribe from_upstream subject c (n, u) =
      let (there, t) = discard_subscriber subject c (subscriptions from_upstream u) in
      let u' = set_subscriptions from_upstream t u in
      if there
      then tell (unsubscribe_targets (subscribers subject u') (active u' (peers_except c n)))
          subject (n, u')
      else (n, u)

  unfoldable pub unsubscribe_each : Bool → ℕ → List Text → Node × PubSub → Node × PubSub
  unsubscribe_each from_upstream c [] s = s
  unsubscribe_each from_upstream c (subject ∷ subjects) s =
      unsubscribe_each from_upstream c subjects (unsubscribe from_upstream subject c s)

  unfoldable pub drop_connection : Bool → ℕ → Node × PubSub → Node × PubSub
  drop_connection from_upstream c s =
      unsubscribe_each from_upstream c (subjects_of c (subscriptions from_upstream s.1)) s

  -- `_on_upstream_connection_error` and `_on_downstream_connection_error`.
  unfoldable pub on_connection_error : Bool → ℕ → Error → Node × PubSub → Node × PubSub
  on_connection_error from_upstream c e (n, u) =
      drop_connection from_upstream c (n, forget_connection c (some e) u)

  unfoldable pub handle_subscription : Bool → ℕ → Text → Bool → Node × PubSub → Node × PubSub
  handle_subscription from_upstream source subject true (n, u) =
      let u' =
        set_subscriptions from_upstream
          (add_subscriber subject source (subscriptions from_upstream u)) u in
      send_to (active u' (peers_except source n)) (subscription subject true) (n, u')
  handle_subscription from_upstream source subject false s =
      unsubscribe from_upstream subject source s

  unfoldable pub handle_publish : ℕ → Text → Bytes → Node × PubSub → Node × PubSub
  handle_publish source subject payload s =
      send_to (publish_targets source subject s.1) (publish subject payload) s

  unfoldable pub close_one_connection : ℕ → Node × PubSub → Node × PubSub
  close_one_connection c (n, u) =
      if member c n.upstream_connections
      then drop_connection true c (close_connection c n, forget_connection c none u)
      else if member c n.downstream_connections
      then drop_connection false c (close_connection c n, forget_connection c none u)
      else (n, u)

-- The callback of a connection error sends, which may fail a further connection. The depth of that
-- is bounded by the number of connections, since the base layer lists a failed one no longer.
unfoldable pub error_callback_within : ℕ → ℕ → OnError PubSub
error_callback_within limit zero from_upstream c e s = s
error_callback_within limit (suc k) from_upstream c e s =
    on_connection_error (error_callback_within limit k) limit from_upstream c e s

unfoldable pub error_callback : ℕ → OnError PubSub
error_callback limit from_upstream c e s =
    error_callback_within limit (suc (length (all_connections s.0))) from_upstream c e s
