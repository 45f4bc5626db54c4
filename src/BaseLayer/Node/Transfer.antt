-- ===== src/BaseLayer/Node/Transfer.antt =====
-- The methods of `BaseLayerNode` (software_bus/base_layer.py) that send data or call the layer
-- above. `send_queue_limit` is the class attribute of that name.
use software_bus.Prelude.{
  ℕ, ◌+◌, ltb, Bool, true, false, if◌then◌else◌, some, List, [], ◌∷◌, length, member, remove,
  Result, ok, err, Error,
}
use software_bus.Text.{Bytes}
use software_bus.BaseLayer.Framing.{check_payload_length}
use software_bus.BaseLayer.Node.{
  running, Node, connections, set_connections, set_connection, queued, stop_sending, close_socket,
  start_connection, peers_except,
}

-- The layer above: what its connection error and new connection callbacks do.
abbrev pub OnError : Type 0 → Type 0
OnError U = Bool → ℕ → Error → Node × U → Node × U

abbrev pub OnNew : Type 0 → Type 0
OnNew U = Bool → ℕ → Node × U → Node × U

module _ {U : Type 0} (on_error : OnError U) where
  unfoldable pub handle_connection_error : Bool → ℕ → Error → Node × U → Node × U
  handle_connection_error from_upstream c e (n, u) =
      if member c (connections from_upstream n)
      then (let (n', u') =
            on_error from_upstream c e
              (set_connections from_upstream (remove c (connections from_upstream n)) n, u) in
          (close_socket c n', u'))
      else (n, u)

  -- A timeout, as ConnectionTooSlow, or an OSError: the connection has failed, and the loop ends.
  unfoldable pub send_failed : ℕ → Error → Node × U → Node × U
  send_failed c e (n, u) = elim (n.connection c).send_task [
    | running (some bytes) ↦
        (let (n', u') = handle_connection_error (member c n.upstream_connections) c e (n, u) in
          (stop_sending c n', u'))
    | _ ↦ (n, u)
  ]

  module _ (send_queue_limit : ℕ) where
    -- The body of the loop of `_relay_to`.
    unfoldable pub relay_one : Bytes → ℕ → Node × U → Node × U
    relay_one bytes target (n, u) =
        if ltb send_queue_limit ((n.connection target).queued_bytes + length bytes)
        then handle_connection_error (member target n.upstream_connections) target
            Error.connection_too_slow (n, u)
        else (set_connection target (queued bytes (n.connection target)) n, u)

    unfoldable pub relay_each : Bytes → List ℕ → Node × U → Node × U
    relay_each bytes [] s = s
    relay_each bytes (c ∷ cs) s = relay_each bytes cs (relay_one bytes c s)

    unfoldable pub relay_to : List ℕ → Bytes → Node × U → Node × U
    relay_to targets bytes s = elim (check_payload_length (length bytes)) [
      | err e ↦ s
      | ok u ↦ relay_each bytes targets s
    ]

    -- `_default_upstream_receive_callback` and `_default_downstream_receive_callback`.
    unfoldable pub default_receive_callback : ℕ → Bytes → Node × U → Node × U
    default_receive_callback source bytes s = relay_to (peers_except source s.0) bytes s

-- `asyncio.open_connection` has made the connection `c`; the result is what the call returns.
unfoldable pub establish_connection : {U : Type 0} → OnNew U → ℕ → Node × U → Result ℕ × (Node × U)
establish_connection on_new c (n, u) =
    if n.is_closed
    then (err Error.connection_error, (n, u))
    else (ok c, on_new true c (start_connection true c n, u))

-- The server has accepted the connection `c`.
unfoldable pub on_downstream_connected : {U : Type 0} → OnNew U → ℕ → Node × U → Node × U
on_downstream_connected on_new c (n, u) =
    if n.is_closed then (n, u) else on_new false c (start_connection false c n, u)

-- `_default_upstream_connection_error_callback` and `_default_downstream_connection_error_callback`
-- only log.
abbrev pub default_connection_error_callback : OnError (Unit {0})
default_connection_error_callback from_upstream c e s = s
