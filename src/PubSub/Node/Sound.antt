-- ===== src/PubSub/Node/Sound.antt =====
-- The invariant of `PubSubNode` (software_bus/pubsub.py): the base layer's send queues, and the form
-- of the subscription tables.
use software_bus.Prelude.{
  ℕ, ◌+◌, ◌≡◌, refl, not-ltb→le, Bool, true, false, Option, length, member, Error, Bool-cases, inl,
  inr, remove,
}
use software_bus.Text.{Text}
use software_bus.BaseLayer.Node.{Node, connections, queued}
use software_bus.BaseLayer.Node.Queues.{
  Queues, set_connection-Queues, queued-IsSound, close_socket-Queues, set_connections-Queues,
}
use software_bus.PubSub.Subscriptions.{add_subscriber, discard_subscriber}
use software_bus.PubSub.Subscriptions.Laws.{IsTable, subscriber-IsTable}
use software_bus.PubSub.State.{PubSub, subscriptions, set_subscriptions, forget_connection}
use software_bus.PubSub.Node.Kept.{Kept}

abbrev pub Tables : PubSub → Type 0
Tables u = IsTable u.downstream_subscriptions × IsTable u.upstream_subscriptions

abbrev pub Sound : ℕ → Node × PubSub → Type 0
Sound limit s = Queues limit s.0 × Tables s.1

pub discard-Tables :
    (up : Bool) (subject : Text) (c : ℕ) (u : PubSub)
    → Tables u
    → Tables (set_subscriptions up (discard_subscriber subject c (subscriptions up u)).1 u)
discard-Tables true subject c u (d, t) =
    (d, (subscriber-IsTable subject c u.upstream_subscriptions t).1)
discard-Tables false subject c u (d, t) =
    ((subscriber-IsTable subject c u.downstream_subscriptions d).1, t)

pub add-Tables :
    (up : Bool) (subject : Text) (c : ℕ) (u : PubSub)
    → Tables u
    → Tables (set_subscriptions up (add_subscriber subject c (subscriptions up u)) u)
add-Tables true subject c u (d, t) =
    (d, (subscriber-IsTable subject c u.upstream_subscriptions t).0)
add-Tables false subject c u (d, t) =
    ((subscriber-IsTable subject c u.downstream_subscriptions d).0, t)

-- What is forgotten of a connection is in neither table.
pub forget-tables :
    (c : ℕ) (e : Option Error) (u : PubSub)
    → ((forget_connection c e u).downstream_subscriptions ≡ u.downstream_subscriptions)
      × ((forget_connection c e u).upstream_subscriptions ≡ u.upstream_subscriptions)
unfolding forget_connection
forget-tables c e u = elim (Bool-cases (member c u.pending)) [
  | inl a ↦ simp a (refl, refl)
  | inr a ↦ simp a (refl, refl)
]

pub forget-Tables :
    (c : ℕ) (e : Option Error) (u : PubSub) → Tables u → Tables (forget_connection c e u)
forget-Tables c e u h = simp ((forget-tables c e u).0, (forget-tables c e u).1) h

pub Sound-Kept : (limit : ℕ) → Kept limit (Sound limit)
Sound-Kept limit = record {
  queue = λ c bytes n u h (q, t). (
    set_connection-Queues limit c (queued bytes (n.connection c)) n
        (queued-IsSound limit bytes (n.connection c)
          (not-ltb→le ((n.connection c).queued_bytes + length bytes) limit h) (q c))
        q,
    t,
  );
  shut = λ c n u (q, t). (close_socket-Queues limit c n q, t);
  unlist =
      λ up c n u (q, t). (set_connections-Queues limit up (remove c (connections up n)) n q, t);
  discard = λ up subject c n u (q, t). (q, discard-Tables up subject c u t);
  forget = λ c e n u (q, t). (q, forget-Tables c e u t);
}
