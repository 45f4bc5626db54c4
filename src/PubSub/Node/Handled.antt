-- ===== src/PubSub/Node/Handled.antt =====
-- How to show that the handlers of `PubSubNode` (software_bus/pubsub.py) keep a property of the
-- base layer's node and of the subscription tables.
use software_bus.Prelude.{
  ℕ, ◌+◌, ◌≡◌, refl, ◌&&◌, ◌||◌, ltb, Bool, true, false, List, [], ◌∷◌, length, member, Error,
  Bool-cases, Option-cases, inl, inr, Result-cases,
}
use software_bus.Text.{Text, Bytes}
use software_bus.BaseLayer.Node.{Node}
use software_bus.BaseLayer.Node.Transfer.{OnError}
use software_bus.PubSub.Codec.{
  Message, subscription, publish, hello, reachability_query, reachability_reply, decode_message,
  ReachabilityResult,
}
use software_bus.PubSub.Subscriptions.{add_subscriber}
use software_bus.PubSub.State.{PubSub, subscriptions, set_subscriptions}
use software_bus.PubSub.Node.{send_to, handle_subscription, handle_publish, publish_targets}
use software_bus.PubSub.Node.Receive.{
  send_subscriptions, on_new_connection, handle_hello, forward_query, answer_now, handle_query,
  handle_reply, handle_message, receive_message, on_receive, activate, drain, drain_next,
  end_forward, is_routed,
}
use software_bus.PubSub.Node.Kept.{Kept, handle-Kept, send_to-Kept, unsubscribe-Kept}

-- A property that says nothing of the rest of the state, and that a new subscriber keeps.
pub record Handled (limit : ℕ) (P : Node × PubSub → Type 0) : Type 0 where
  pub kept : Kept limit P
  pub tables :
      (n : Node) (u v : PubSub)
      → v.downstream_subscriptions ≡ u.downstream_subscriptions
      → v.upstream_subscriptions ≡ u.upstream_subscriptions
      → P (n, u)
      → P (n, v)
  pub added :
      (up : Bool) (subject : Text) (c : ℕ) (n : Node) (u : PubSub)
      → P (n, u)
      → P (n, set_subscriptions up (add_subscriber subject c (subscriptions up u)) u)

module _ {limit : ℕ} {P : Node × PubSub → Type 0} (h : Handled limit P) (on_error : OnError PubSub)
    (errors : (up : Bool) (c : ℕ) (e : Error) (s : Node × PubSub)
      → P s
      → P (on_error up c e s)) where
  sent : (cs : List ℕ) (m : Message) (s : Node × PubSub) → P s → P (send_to on_error limit cs m s)
  sent = send_to-Kept h.kept on_error errors

  send_subscriptions-Handled :
      (c : ℕ) (subjects : List Text) (s : Node × PubSub)
      → P s
      → P (send_subscriptions on_error limit c subjects s)
  unfolding send_subscriptions
  send_subscriptions-Handled c [] s p = p
  send_subscriptions-Handled c (x ∷ xs) s p =
      send_subscriptions-Handled c xs _ (sent (c ∷ []) (subscription x true) s p)

  pub on_new_connection-Handled :
      (up : Bool) (c : ℕ) (s : Node × PubSub) → P s → P (on_new_connection on_error limit up c s)
  unfolding on_new_connection
  on_new_connection-Handled true c (n, u) p =
      sent (c ∷ []) (hello u.node_id) _ (h.tables n u _ refl refl p)
  on_new_connection-Handled false c (n, u) p =
      send_subscriptions-Handled c _ _ (sent (c ∷ []) (hello u.node_id) (n, u) p)

  handle_subscription-Handled :
      (up : Bool) (source : ℕ) (subject : Text) (subscribe : Bool) (s : Node × PubSub)
      → P s
      → P (handle_subscription on_error limit up source subject subscribe s)
  unfolding handle_subscription
  handle_subscription-Handled up source subject true (n, u) p =
      sent _ (subscription subject true) _ (h.added up subject source n u p)
  handle_subscription-Handled up source subject false s p =
      unsubscribe-Kept h.kept on_error errors up subject source s p

  handle_hello-Handled :
      (source : ℕ) (node_id : Bytes) (s : Node × PubSub) → P s → P (handle_hello source node_id s)
  unfolding handle_hello
  handle_hello-Handled source node_id (n, u) p = elim (Bool-cases (member source u.pending)) [
    | inl a ↦ simp a (h.tables n u _ refl refl p)
    | inr a ↦ simp a (h.tables n u _ refl refl p)
  ]

  forward_query-Handled :
      (cs : List ℕ) (source : ℕ) (id : Bytes) (s : Node × PubSub)
      → P s
      → P (forward_query on_error limit cs source id s)
  unfolding forward_query
  forward_query-Handled [] source id s p = sent _ _ s p
  forward_query-Handled (c ∷ cs) source id (n, u) p = h.tables n u _ refl refl p

  handle_query-Handled :
      (source : ℕ) (id target : Bytes) (s : Node × PubSub)
      → P s
      → P (handle_query on_error limit source id target s)
  unfolding handle_query
  handle_query-Handled source id target s p =
      elim (Option-cases (answer_now source id target s.1)) [
        | inl e ↦ rw (e, handle_query) (forward_query-Handled _ source id s p)
        | inr (r, e) ↦ rw (e, handle_query) (sent _ _ s p)
      ]

  pub handle_message-Handled :
      (up : Bool) (source : ℕ) (m : Message) (s : Node × PubSub)
      → P s
      → P (handle_message on_error limit up source m s)
  unfolding handle_message handle_publish handle_reply
  handle_message-Handled up source (subscription subject b) s p =
      handle_subscription-Handled up source subject b s p
  handle_message-Handled up source (publish subject payload) s p =
      sent (publish_targets source subject s.1) (publish subject payload) s p
  handle_message-Handled up source (hello id) s p = handle_hello-Handled source id s p
  handle_message-Handled up source (reachability_query id target) s p =
      handle_query-Handled source id target s p
  handle_message-Handled up source (reachability_reply id r) (n, u) p = h.tables n u _ refl refl p

  receive_message-Handled :
      (held_limit : ℕ) (up : Bool) (source : ℕ) (m : Message) (size : ℕ) (s : Node × PubSub)
      → P s
      → P (receive_message on_error limit held_limit up source m size s)
  unfolding receive_message
  receive_message-Handled held_limit up source m size (n, u) p =
      elim (Bool-cases (is_routed m && (member source u.pending || member source u.draining))) [
        | inr a ↦ simp a (handle_message-Handled up source m (n, u) p)
        | inl a ↦ elim (Bool-cases (ltb held_limit ((u.held source).size + size))) [
          | inl b ↦
              simp (a, b)
                (handle-Kept h.kept on_error errors up source Error.held_messages_over_limit (n, u)
                  p)
          | inr b ↦ simp (a, b) (h.tables n u _ refl refl p)
        ]
      ]

  pub on_receive-Handled :
      (held_limit : ℕ) (up : Bool) (source : ℕ) (bytes : Bytes) (s : Node × PubSub)
      → P s
      → P (on_receive on_error limit held_limit up source bytes s)
  unfolding on_receive
  on_receive-Handled held_limit up source bytes s p = elim (Result-cases (decode_message bytes)) [
    | inl (m, e) ↦
        rw (e, on_receive) (receive_message-Handled held_limit up source m (length bytes) s p)
    | inr (x, e) ↦ rw (e, on_receive) p
  ]

  pub activate-Handled : (c : ℕ) (s : Node × PubSub) → P s → P (activate on_error limit c s)
  unfolding activate
  activate-Handled c (n, u) p = send_subscriptions-Handled c _ _ (h.tables n u _ refl refl p)

  drain-Handled :
      (ms : List (Message × ℕ)) (c : ℕ) (s : Node × PubSub) → P s → P (drain on_error limit ms c s)
  unfolding drain
  drain-Handled [] c (n, u) p = h.tables n u _ refl refl p
  drain-Handled ((m, size) ∷ rest) c (n, u) p = elim (Bool-cases (member c u.draining)) [
    | inl a ↦ simp a (handle_message-Handled true c m _ (h.tables n u _ refl refl p))
    | inr a ↦ simp a p
  ]

  pub drain_next-Handled : (c : ℕ) (s : Node × PubSub) → P s → P (drain_next on_error limit c s)
  unfolding drain_next
  drain_next-Handled c s p = drain-Handled (s.1.held c).messages c s p

  pub end_forward-Handled :
      (source : ℕ) (id : Bytes) (r : ReachabilityResult) (s : Node × PubSub)
      → P s
      → P (end_forward on_error limit source id r s)
  unfolding end_forward
  end_forward-Handled source id r (n, u) p =
      elim (Bool-cases
        (member source n.upstream_connections || member source n.downstream_connections)) [
          | inl a ↦ simp a (sent _ _ _ (h.tables n u _ refl refl p))
          | inr a ↦ simp a (h.tables n u _ refl refl p)
        ]
