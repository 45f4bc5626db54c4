-- ===== src/BaseLayer/Node/Runs.antt =====
-- Runs of `BaseLayerNode` (software_bus/base_layer.py): every order of its operations, of the
-- progress of its send loops, and of what happens to its connections.
use software_bus.Prelude.{
  ℕ, ◌+◌, ◌≡◌, refl, ◌||◌, arith, ltb, not-ltb→le, Bool, true, false, none, some, List, [], ◌∷◌,
  length, member, Bool-cases, inl, inr, Error, Result-cases, remove, update_self,
}
use software_bus.Text.{Text, Bytes}
use software_bus.BaseLayer.Framing.{check_payload_length}
use software_bus.BaseLayer.Node.{
  SendTask, stopped, running, is_accepting, Node, new_node, connections, set_connections,
  close_socket, queued, send_next, send_taken, start_connection, stop_sending, close_connection,
  close, accept_connection, closed_connection,
}
use software_bus.BaseLayer.Node.Transfer.{
  OnError, OnNew, handle_connection_error, relay_one, relay_each, relay_to, send_failed,
  establish_connection, on_downstream_connected,
}
use software_bus.BaseLayer.Node.Queues.{
  Queues, send_next-Queues, send_taken-Queues, close_connection-Queues, close-Queues,
  start_connection-Queues, set_connections-Queues, close_socket-Queues, set_connection-Queues,
  queued-IsSound, new_connection-IsSound,
}

-- A failed send is of a connection that the node still lists, or that is closed already.
abbrev pub known : ℕ → Node → Bool
known c n =
    member c n.upstream_connections
    || member c n.downstream_connections
    || (n.connection c).is_closing

module _ {U : Type 0} (on_error : OnError U) (on_new : OnNew U) (limit : ℕ) where
  pub data Step : Node × U → Node × U → Type 0 where
    accept :
        {n : Node} {u : U} (host : Text) (port bound : ℕ)
        → Step (n, u) (accept_connection host port bound n, u)
    establish : {s : Node × U} (c : ℕ) → Step s (establish_connection on_new c s).1
    downstream : {s : Node × U} (c : ℕ) → Step s (on_downstream_connected on_new c s)
    relay :
        {s : Node × U} (targets : List ℕ) (bytes : Bytes)
        → Step s (relay_to on_error limit targets bytes s)
    fail :
        {s : Node × U} (up : Bool) (c : ℕ) (e : Error)
        → Step s (handle_connection_error on_error up c e s)
    next : {n : Node} {u : U} (c : ℕ) → Step (n, u) (send_next c n, u)
    sent : {n : Node} {u : U} (c : ℕ) → Step (n, u) (send_taken c n, u)
    unsent :
        {s : Node × U} (c : ℕ) (e : Error)
        → known c s.0 ≡ true
        → Step s (send_failed on_error c e s)
    close_one : {n : Node} {u : U} (c : ℕ) → Step (n, u) (close_connection c n, u)
    close_all : {n : Node} {u : U} → Step (n, u) (close n, u)

  pub data Reach (s : Node × U) : Node × U → Type 0 where
    here : Reach s s
    then_step : {t v : Node × U} → Reach s t → Step t v → Reach s v

  -- What is asked of the layer above: its callbacks keep the queues as the node keeps them.
  pub record Keeps : Type 0 where
    pub errors :
        (up : Bool) (c : ℕ) (e : Error) (s : Node × U)
        → Queues limit s.0
        → Queues limit (on_error up c e s).0
    pub news :
        (up : Bool) (c : ℕ) (s : Node × U) → Queues limit s.0 → Queues limit (on_new up c s).0

  module _ (k : Keeps) where
    handle-Queues :
        (up : Bool) (c : ℕ) (e : Error) (s : Node × U)
        → Queues limit s.0
        → Queues limit (handle_connection_error on_error up c e s).0
    unfolding handle_connection_error
    handle-Queues up c e s q = elim (Bool-cases (member c (connections up s.0))) [
      | inr a ↦ rw a q
      | inl a ↦ rw a (
          close_socket-Queues limit c _ (
            k.errors up c e (set_connections up (remove c (connections up s.0)) s.0, s.1)
              (set_connections-Queues limit up (remove c (connections up s.0)) s.0 q)))
    ]

    relay_one-Queues :
        (bytes : Bytes) (c : ℕ) (s : Node × U)
        → Queues limit s.0
        → Queues limit (relay_one on_error limit bytes c s).0
    unfolding relay_one
    relay_one-Queues bytes c s q =
        elim (Bool-cases (ltb limit ((s.0.connection c).queued_bytes + length bytes))) [
          | inl a ↦ rw a (handle-Queues _ c Error.connection_too_slow s q)
          | inr a ↦ rw a (
              set_connection-Queues limit c (queued bytes (s.0.connection c)) s.0
                (queued-IsSound limit bytes (s.0.connection c)
                  (not-ltb→le ((s.0.connection c).queued_bytes + length bytes) limit a) (q c))
                q)
        ]

    relay_each-Queues :
        (bytes : Bytes) (cs : List ℕ) (s : Node × U)
        → Queues limit s.0
        → Queues limit (relay_each on_error limit bytes cs s).0
    unfolding relay_each
    relay_each-Queues bytes [] s q = q
    relay_each-Queues bytes (c ∷ cs) s q =
        relay_each-Queues bytes cs (relay_one on_error limit bytes c s)
          (relay_one-Queues bytes c s q)

    relay_to-Queues :
        (cs : List ℕ) (bytes : Bytes) (s : Node × U)
        → Queues limit s.0
        → Queues limit (relay_to on_error limit cs bytes s).0
    unfolding relay_to
    relay_to-Queues cs bytes s q = elim (Result-cases (check_payload_length (length bytes))) [
      | inl (u, e) ↦ rw (e, relay_to) (relay_each-Queues bytes cs s q)
      | inr (x, e) ↦ rw (e, relay_to) q
    ]

    stop_sending-Queues :
        (c : ℕ) (n : Node)
        → (n.connection c).is_closing ≡ true
        → Queues limit n
        → Queues limit (stop_sending c n)
    stop_sending-Queues c n h q =
        set_connection-Queues limit c (record (n.connection c) { send_task = stopped }) n
          (record { counted = (q c).counted; within = (q c).within; driven = rw h tt }) q

    closing-close_socket : (c : ℕ) (n : Node) → ((close_socket c n).connection c).is_closing ≡ true
    unfolding close_socket
    closing-close_socket c n = rw (update_self n.connection c (closed_connection (n.connection c)))

    handle_listed :
        (up : Bool) (c : ℕ) (e : Error) (s : Node × U)
        → member c (connections up s.0) ≡ true
        → ((handle_connection_error on_error up c e s).0.connection c).is_closing ≡ true
    unfolding handle_connection_error
    handle_listed up c e s h = rw h (closing-close_socket c _)

    handle_unlisted :
        (up : Bool) (c : ℕ) (e : Error) (s : Node × U)
        → member c (connections up s.0) ≡ false
        → handle_connection_error on_error up c e s ≡ s
    unfolding handle_connection_error
    handle_unlisted up c e s h = rw h

    -- A connection that has failed is closed, if the node knew it.
    handle_closes :
        (c : ℕ) (e : Error) (up : Bool) (s : Node × U)
        → member c s.0.upstream_connections ≡ up
        → known c s.0 ≡ true
        → ((handle_connection_error on_error up c e s).0.connection c).is_closing ≡ true
    handle_closes c e true s a h = handle_listed true c e s a
    handle_closes c e false s a h = elim (Bool-cases (member c s.0.downstream_connections)) [
      | inl b ↦ handle_listed false c e s b
      | inr b ↦ rw (handle_unlisted false c e s b) (ground arith)
    ]

    send_failed-Queues :
        (c : ℕ) (e : Error) (s : Node × U)
        → known c s.0 ≡ true
        → Queues limit s.0
        → Queues limit (send_failed on_error c e s).0
    unfolding send_failed
    send_failed-Queues c e s h q = go (s.0.connection c).send_task refl
      where
        up : Bool
        up = member c s.0.upstream_connections

        go :
            (task : SendTask)
            → (s.0.connection c).send_task ≡ task
            → Queues limit (send_failed on_error c e s).0
        go stopped t = rw (t, send_failed) q
        go (running none) t = rw (t, send_failed) q
        go (running (some b)) t =
            rw (t, send_failed)
              (stop_sending-Queues c (handle_connection_error on_error up c e s).0
                (handle_closes c e up s refl h) (handle-Queues up c e s q))

    establish-Queues :
        (c : ℕ) (s : Node × U)
        → Queues limit s.0
        → Queues limit (establish_connection on_new c s).1.0
    unfolding establish_connection
    establish-Queues c s q = elim (Bool-cases s.0.is_closed) [
      | inl a ↦ rw a q
      | inr a ↦ simp a (
          k.news true c (start_connection true c s.0, s.1)
            (start_connection-Queues limit true c s.0 q))
    ]

    downstream-Queues :
        (c : ℕ) (s : Node × U)
        → Queues limit s.0
        → Queues limit (on_downstream_connected on_new c s).0
    unfolding on_downstream_connected
    downstream-Queues c s q = elim (Bool-cases s.0.is_closed) [
      | inl a ↦ rw a q
      | inr a ↦ simp a (
          k.news false c (start_connection false c s.0, s.1)
            (start_connection-Queues limit false c s.0 q))
    ]

    accept-Queues :
        (host : Text) (port bound : ℕ) (n : Node)
        → Queues limit n
        → Queues limit (accept_connection host port bound n)
    unfolding accept_connection
    accept-Queues host port bound n q = elim (Bool-cases (is_accepting host port n)) [
      | inl a ↦ rw a q
      | inr a ↦ rw a q
    ]

    Step-Queues : {s t : Node × U} → Step s t → Queues limit s.0 → Queues limit t.0
    Step-Queues (accept {n} host port bound) q = accept-Queues host port bound n q
    Step-Queues (establish {s} c) q = establish-Queues c s q
    Step-Queues (downstream {s} c) q = downstream-Queues c s q
    Step-Queues (relay {s} targets bytes) q = relay_to-Queues targets bytes s q
    Step-Queues (fail {s} up c e) q = handle-Queues up c e s q
    Step-Queues (next {n} c) q = send_next-Queues limit c n q
    Step-Queues (sent {n} c) q = send_taken-Queues limit c n q
    Step-Queues (unsent {s} c e h) q = send_failed-Queues c e s h q
    Step-Queues (close_one {n} c) q = close_connection-Queues limit c n q
    Step-Queues (close_all {n}) q = close-Queues limit n q

    -- If the callbacks of the layer above keep the queues sound, then in every state that a node can
    -- reach from one with sound queues, each connection's count is the number of bytes in its
    -- queue, is within the limit, and an open connection's queue is empty or being sent, the data
    -- in flight being its head.
    pub Reach-Queues : {s t : Node × U} → Reach s t → Queues limit s.0 → Queues limit t.0
    Reach-Queues here q = q
    Reach-Queues (then_step r st) q = Step-Queues st (Reach-Queues r q)

pub new_node-Queues : (limit : ℕ) → Queues limit new_node
new_node-Queues limit c = new_connection-IsSound limit
