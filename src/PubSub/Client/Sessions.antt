-- ===== src/PubSub/Client/Sessions.antt =====
-- Calls of `PubSubClient` (software_bus/pubsub.py) that overlap: each function runs from one await of
-- a call to its next. `BaseLayerClient.send` writes before it first waits.
pub mod Told
pub mod Sends
pub mod Callbacks
pub mod Runs
pub mod Tests
use software_bus.Prelude.{
  ℕ, not, Bool, true, false, if◌then◌else◌, List, [], ◌∷◌, ◌++◌, map, length, Result, ok, err,
  Error,
}
use software_bus.Text.{Text, Bytes}
use software_bus.BaseLayer.Framing.{check_payload_length}
use software_bus.PubSub.Codec.{Message, subscription, encode_message}
use software_bus.PubSub.Subscriptions.{Table, get}
use software_bus.PubSub.Subscriptions.Laws.{has_key}
use software_bus.PubSub.Client.{add_registration, is_empty, remove_registration}

-- `told` is what has been written to the connection that there is, and `resending` the subjects that
-- `connect` has still to look at. Since the connection was made, `failed` is whether a call has raised
-- and `abandoned` whether `connect` was cancelled in its loop.
pub record Session : Type 0 where
  pub table : Table
  pub connected : Bool
  pub told : List Message
  pub resending : List Text
  pub failed : Bool
  pub abandoned : Bool

abbrev pub new_session : Session
new_session = record {
  table = [];
  connected = false;
  told = [];
  resending = [];
  failed = false;
  abandoned = false;
}

-- A call that goes on or has returned, or has raised.
abbrev pub raised : Error → Session → Result (Unit {0}) × Session
raised e s = (err e, record s { failed = true })

-- `BaseLayerClient.send` up to its await.
unfoldable pub write : Message → Bytes → Session → Result (Unit {0}) × Session
write message wire_message s =
    if s.connected
    then elim (check_payload_length (length wire_message)) [
      | ok u ↦ (ok tt, record s { told = s.told ++ message ∷ [] })
      | err e ↦ raised e s
    ]
    else raised Error.runtime_error s

unfoldable pub send_message : Message → Session → Result (Unit {0}) × Session
send_message message s = elim (encode_message message) [
  | ok wire_message ↦ write message wire_message s
  | err e ↦ raised e s
]

abbrev pub set_table : Table → Session → Session
set_table t s = record s { table = t }

-- Where sending raises, the registration goes again.
unfoldable pub first_written : Text → ℕ → Result (Unit {0}) × Session → Result (Unit {0}) × Session
first_written subject c (ok u, s) = (ok u, s)
first_written subject c (err e, s) = (err e, set_table (remove_registration subject c s.table).1 s)

unfoldable pub begin_subscribe : Text → ℕ → Session → Result (Unit {0}) × Session
begin_subscribe subject c s = elim (encode_message (subscription subject true)) [
  | err e ↦ raised e s
  | ok wire_message ↦
      let s' = set_table (add_registration subject c s.table) s in
      if is_empty (get subject s.table)
      then first_written subject c (write (subscription subject true) wire_message s')
      else (ok tt, s')
]

-- The `except` of `subscribe`, where the send that it has waited for raises, or it is cancelled.
unfoldable pub fail_subscribe : Text → ℕ → Session → Session
fail_subscribe subject c s = record s {
  table = (remove_registration subject c s.table).1;
  failed = true;
}

unfoldable pub begin_unsubscribe : Text → ℕ → Session → Result (Unit {0}) × Session
begin_unsubscribe subject c s =
    let (was_last, t) = remove_registration subject c s.table in
    if was_last
    then send_message (subscription subject false) (set_table t s)
    else (ok tt, set_table t s)

-- `connect` once there is a connection.
unfoldable pub connected_again : Session → Session
connected_again s = record s {
  connected = true;
  told = [];
  resending = map (λ entry. entry.0) s.table;
  failed = false;
  abandoned = false;
}

-- One round of its loop.
unfoldable pub resend : List Text → Session → Result (Unit {0}) × Session
resend [] s = (ok tt, s)
resend (subject ∷ subjects) s =
    let s' = record s { resending = subjects } in
    if has_key subject s.table then send_message (subscription subject true) s' else (ok tt, s')

-- The connection is lost or closed: a loop of `connect` that runs ends, since its send raises.
unfoldable pub disconnected : Session → Session
disconnected s = record s { connected = false; resending = [] }

-- `connect` is cancelled while it waits for a send: the connection stays.
unfoldable pub abandon : Session → Session
abandon s = record s { resending = []; abandoned = true }
