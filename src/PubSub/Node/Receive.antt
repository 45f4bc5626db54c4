-- ===== src/PubSub/Node/Receive.antt =====
-- The rest of what `PubSubNode` (software_bus/pubsub.py) does with a new connection, with received
-- data, with reachability queries and with a connection that its cycle check has accepted.
-- `held_limit` is held_messages_limit. Each function runs to its end before another task does.
use software_bus.Prelude.{
  ℕ, ◌+◌, ◌-◌, not, ◌&&◌, ◌||◌, ltb, Bool, true, false, if◌then◌else◌, Option, none, some, List, [],
  ◌∷◌, ◌++◌, map, any, length, member, select, update, ok, err, Error, ◌==◌,
}
use software_bus.Text.{Text, Bytes, text_eq}
use software_bus.BaseLayer.Node.{Node, all_connections, close}
use software_bus.BaseLayer.Node.Transfer.{OnError, handle_connection_error}
use software_bus.PubSub.Codec.{
  Message, subscription, publish, hello, reachability_query, reachability_reply, decode_message,
  ReachabilityResult, found, not_found, unknown,
}
use software_bus.PubSub.Query.{Query, new_query, discard, reply}
use software_bus.PubSub.State.{
  PubSub, PendingConnection, new_pending, nothing_held, active, has_peer_node_id, forget_connection,
}
use software_bus.PubSub.Node.{send_to, handle_subscription, handle_publish}

abbrev pub active_node_connections : Node × PubSub → List ℕ
active_node_connections (n, u) = select (has_peer_node_id u) (active u (all_connections n))

abbrev pub has_query : Bytes → PubSub → Bool
has_query query_id u = any (λ entry. text_eq entry.0 query_id) u.queries

-- `_open_query`, for an id that is not there.
abbrev pub open_query : Bytes → List ℕ → PubSub → PubSub
open_query query_id targets u = record u {
  queries = u.queries ++ (query_id, new_query targets) ∷ [];
}

-- `del self._queries[query_id]`
abbrev pub delete_query : Bytes → PubSub → PubSub
delete_query query_id u = record u {
  queries = select (λ (entry : Bytes × Query). not (text_eq entry.0 query_id)) u.queries;
}

unfoldable pub answer_now : ℕ → Bytes → Bytes → PubSub → Option ReachabilityResult
answer_now source query_id target_node_id u =
    if member source u.pending
    then some (if u.checking then unknown else not_found)
    else if text_eq target_node_id u.node_id
    then some found
    else if u.checking
    then some unknown
    else if has_query query_id u
    then some unknown
    else none

abbrev pub subjects : PubSub → List Text
subjects u =
    let known = map (λ (entry : Text × List ℕ). entry.0) u.downstream_subscriptions in
    known
    ++ select (λ s. not (any (text_eq s) known))
        (map (λ (entry : Text × List ℕ). entry.0) u.upstream_subscriptions)

unfoldable pub handle_hello : ℕ → Bytes → Node × PubSub → Node × PubSub
handle_hello source node_id (n, u) =
    let u' = record u { peer_node_ids = update u.peer_node_ids source (some node_id) } in
    if member source u.pending
    then (n, record u' { check = update u.check source (identified node_id (u.check source)) })
    else (n, u')
  where
    identified : Bytes → PendingConnection → PendingConnection
    identified node_id p = record p {
      hello = elim p.hello [ none ↦ some (ok node_id) | some h ↦ some h ];
    }

unfoldable pub handle_reply : ℕ → Bytes → ReachabilityResult → Node × PubSub → Node × PubSub
handle_reply source query_id r (n, u) = (
  n,
  record u {
    queries =
        map (λ entry. if text_eq entry.0 query_id then (entry.0, reply source r entry.1) else entry)
          u.queries;
  },
)

abbrev pub is_routed : Message → Bool
is_routed (subscription subject subscribe) = true
is_routed (publish subject payload) = true
is_routed m = false

abbrev pub hold : ℕ → Message → ℕ → PubSub → PubSub
hold source m size u =
    let h = u.held source in
    record u {
      held =
          update u.held source
            (record { messages = h.messages ++ (m, size) ∷ []; size = h.size + size });
    }

module _ (on_error : OnError PubSub) (limit : ℕ) where
  unfoldable pub send_subscriptions : ℕ → List Text → Node × PubSub → Node × PubSub
  send_subscriptions c [] s = s
  send_subscriptions c (subject ∷ rest) s =
      send_subscriptions c rest (send_to on_error limit (c ∷ []) (subscription subject true) s)

  -- `_on_upstream_new_connection` and `_on_downstream_new_connection`. The subjects are those of a
  -- set, here in the tables' order.
  unfoldable pub on_new_connection : Bool → ℕ → Node × PubSub → Node × PubSub
  on_new_connection true c (n, u) = send_to on_error limit (c ∷ []) (hello u.node_id) (
    n,
    record u {
      pending = discard c u.pending ++ c ∷ [];
      check = update u.check c new_pending;
      held = update u.held c nothing_held;
    },
  )
  on_new_connection false c (n, u) =
      let s = send_to on_error limit (c ∷ []) (hello u.node_id) (n, u) in
      send_subscriptions c (subjects s.1) s

  -- `_handle_query` once there is nothing to answer now.
  unfoldable pub forward_query : List ℕ → ℕ → Bytes → Node × PubSub → Node × PubSub
  forward_query [] source query_id s =
      send_to on_error limit (source ∷ []) (reachability_reply query_id not_found) s
  forward_query (c ∷ cs) source query_id (n, u) =
      let u' = open_query query_id (c ∷ cs) u in
      (n, record u' { query_tasks = u.query_tasks ++ (source, query_id) ∷ [] })

  unfoldable pub handle_query : ℕ → Bytes → Bytes → Node × PubSub → Node × PubSub
  handle_query source query_id target_node_id s =
      elim (answer_now source query_id target_node_id s.1) [
        | some r ↦ send_to on_error limit (source ∷ []) (reachability_reply query_id r) s
        | none ↦
            forward_query (select (λ c. not (c == source)) (active_node_connections s)) source
              query_id s
      ]

  unfoldable pub handle_message : Bool → ℕ → Message → Node × PubSub → Node × PubSub
  handle_message from_upstream source (subscription subject subscribe) s =
      handle_subscription on_error limit from_upstream source subject subscribe s
  handle_message from_upstream source (publish subject payload) s =
      handle_publish on_error limit source subject payload s
  handle_message from_upstream source (hello node_id) s = handle_hello source node_id s
  handle_message from_upstream source (reachability_query query_id target_node_id) s =
      handle_query source query_id target_node_id s
  handle_message from_upstream source (reachability_reply query_id r) s =
      handle_reply source query_id r s

  module _ (held_limit : ℕ) where
    -- `_on_receive` of a decoded message that took `size` bytes.
    unfoldable pub receive_message : Bool → ℕ → Message → ℕ → Node × PubSub → Node × PubSub
    receive_message from_upstream source m size (n, u) =
        if is_routed m && (member source u.pending || member source u.draining)
        then if ltb held_limit ((u.held source).size + size)
          then handle_connection_error on_error from_upstream source Error.held_messages_over_limit
              (n, u)
          else (n, hold source m size u)
        else handle_message from_upstream source m (n, u)

    unfoldable pub on_receive : Bool → ℕ → Bytes → Node × PubSub → Node × PubSub
    on_receive from_upstream source bytes s = elim (decode_message bytes) [
      | ok m ↦ receive_message from_upstream source m (length bytes) s
      | err e ↦ s
    ]

  -- `_activate` up to its loop, for a pending connection.
  unfoldable pub activate : ℕ → Node × PubSub → Node × PubSub
  activate c (n, u) =
      send_subscriptions c (subjects u)
        (n, record u { pending = discard c u.pending; draining = discard c u.draining ++ c ∷ [] })

  -- One round of the loop of `_activate`; the connection is draining no longer after the last.
  unfoldable pub drain : List (Message × ℕ) → ℕ → Node × PubSub → Node × PubSub
  drain [] c (n, u) = (n, record u { draining = discard c u.draining })
  drain ((m, size) ∷ rest) c (n, u) =
      if member c u.draining
      then handle_message true c m (
        n,
        record u {
          held = update u.held c (record { messages = rest; size = (u.held c).size - size });
        },
      )
      else (n, u)

  unfoldable pub drain_next : ℕ → Node × PubSub → Node × PubSub
  drain_next c s = drain (s.1.held c).messages c s

  -- `_collect` up to its await, of the query `query_id` with those targets: what the task of
  -- `_forward_query` does first.
  unfoldable pub begin_collect : List ℕ → Bytes → Bytes → Node × PubSub → Node × PubSub
  begin_collect targets query_id target_node_id s =
      send_to on_error limit targets (reachability_query query_id target_node_id) s

  -- The reply of `_forward_query`, once its query has come to `r`.
  unfoldable pub end_forward : ℕ → Bytes → ReachabilityResult → Node × PubSub → Node × PubSub
  end_forward source query_id r (n, u) =
      let u' = delete_query query_id (record u {
        query_tasks = select (λ (t : ℕ × Bytes). not (text_eq t.1 query_id)) u.query_tasks;
      }) in
      if member source n.upstream_connections || member source n.downstream_connections
      then send_to on_error limit (source ∷ []) (reachability_reply query_id r) (n, u')
      else (n, u')

-- The node's state after `close`; the checks that run end with an error.
unfoldable pub forget_each : List ℕ → PubSub → PubSub
forget_each [] u = u
forget_each (c ∷ cs) u = forget_each cs (forget_connection c none u)

unfoldable pub close_node : Node × PubSub → Node × PubSub
close_node (n, u) = (
  close n,
  record (forget_each (all_connections n) u) {
    downstream_subscriptions = [];
    upstream_subscriptions = [];
    peer_node_ids = λ c. none;
    draining = [];
    queries = [];
    query_tasks = [];
  },
)
