-- ===== src/PubSub/State.antt =====
-- The state that `PubSubNode` (software_bus/pubsub.py) keeps above its base layer node, and what
-- changes that state alone. A `Connection` object is its number.
use software_bus.Prelude.{
  ℕ, not, Bool, true, false, if◌then◌else◌, Option, none, some, List, [], ◌++◌, map, member, select,
  update, Result, err, Error,
}
use software_bus.Text.{Text, Bytes}
use software_bus.PubSub.Codec.{Message, ReachabilityResult, not_found}
use software_bus.PubSub.Subscriptions.{Table, get}
use software_bus.PubSub.Query.{Query, discard, reply}

-- A message kept from a connection, with its size as received.
pub record HeldMessages : Type 0 where
  pub messages : List (Message × ℕ)
  pub size : ℕ

abbrev pub nothing_held : HeldMessages
nothing_held = record { messages = []; size = 0 }

-- The futures: none until they are resolved.
pub record PendingConnection : Type 0 where
  pub hello : Option (Result Bytes)
  pub lost : Option (Option Error)

abbrev pub new_pending : PendingConnection
new_pending = record { hello = none; lost = none }

-- The keys of `_pending` and of `_draining`; the objects that they lead to are in `check`, and in
-- `held`, which the two share. `peer_node_ids` is none where there is no entry. A query task has its
-- source and its query's id.
pub record PubSub : Type 0 where
  pub node_id : Bytes
  pub downstream_subscriptions : Table
  pub upstream_subscriptions : Table
  pub peer_node_ids : ℕ → Option Bytes
  pub pending : List ℕ
  pub check : ℕ → PendingConnection
  pub draining : List ℕ
  pub held : ℕ → HeldMessages
  pub queries : List (Bytes × Query)
  pub query_tasks : List (ℕ × Bytes)
  pub checking : Bool

-- `node_id` is what `uuid.uuid4` gives.
abbrev pub new_pub_sub : Bytes → PubSub
new_pub_sub node_id = record {
  node_id = node_id;
  downstream_subscriptions = [];
  upstream_subscriptions = [];
  peer_node_ids = λ c. none;
  pending = [];
  check = λ c. new_pending;
  draining = [];
  held = λ c. nothing_held;
  queries = [];
  query_tasks = [];
  checking = false;
}

abbrev pub subscriptions : Bool → PubSub → Table
subscriptions true u = u.upstream_subscriptions
subscriptions false u = u.downstream_subscriptions

abbrev pub set_subscriptions : Bool → Table → PubSub → PubSub
set_subscriptions true t u = record u { upstream_subscriptions = t }
set_subscriptions false t u = record u { downstream_subscriptions = t }

abbrev pub subscribers : Text → PubSub → List ℕ
subscribers subject u =
    get subject u.downstream_subscriptions ++ get subject u.upstream_subscriptions

abbrev pub active : PubSub → List ℕ → List ℕ
active u cs = select (λ c. not (member c u.pending)) cs

abbrev pub has_peer_node_id : PubSub → ℕ → Bool
has_peer_node_id u c = elim (u.peer_node_ids c) [ none ↦ false | some i ↦ true ]

-- `connection` fails: its check's futures are resolved, unless they are already.
abbrev pub lose : Option Error → PendingConnection → PendingConnection
lose error p = record {
  hello = elim p.hello [ none ↦ some (err Error.connection_error) | some h ↦ some h ];
  lost = elim p.lost [ none ↦ some error | some e ↦ some e ];
}

abbrev pub reply_each : ℕ → ReachabilityResult → List (Bytes × Query) → List (Bytes × Query)
reply_each c r qs = map (λ entry. (entry.0, reply c r entry.1)) qs

abbrev pub end_check : ℕ → Option Error → PubSub → PubSub
end_check c error u =
    if member c u.pending
    then record u {
      pending = discard c u.pending;
      check = update u.check c (lose error (u.check c));
    }
    else u

unfoldable pub forget_connection : ℕ → Option Error → PubSub → PubSub
forget_connection c error u =
    let u' = end_check c error (record u {
      peer_node_ids = update u.peer_node_ids c none;
      draining = discard c u.draining;
    }) in
    record u' { queries = reply_each c not_found u'.queries }

-- The subjects that `c` is subscribed to, in the table's order.
unfoldable pub subjects_of : ℕ → Table → List Text
subjects_of c t = map (λ entry. entry.0) (select (λ (entry : Text × List ℕ). member c entry.1) t)
