-- ===== src/BaseLayer/Framing.antt =====
-- The framing of software_bus/base_layer.py: `check_payload_length`, `Connection.send` and
-- `Connection.receive`, and the loop that receives until the connection fails. The stream is the
-- list of the bytes that the peer sends before it closes the connection.
pub mod Stream
pub mod Tests
use software_bus.Prelude.{
  ℕ, zero, suc, ◌*◌, ltb, not, if◌then◌else◌, Option, none, some, List, [], ◌∷◌, ◌++◌, length, take,
  drop, Result, ok, err, Error, ◌>>=◌, ◌>>◌,
}
use software_bus.Text.{Bytes}
use software_bus.Text.BigEndian.{to_bytes, from_bytes}

abbrev pub length_prefix_size : ℕ
length_prefix_size = 4

abbrev pub max_payload_length : ℕ
max_payload_length = 16 * 1024 * 1024

unfoldable pub check_payload_length : ℕ → Result (Unit {0})
check_payload_length length =
    if ltb max_payload_length length then err Error.payload_too_long else ok tt

-- What `Connection.send` writes.
unfoldable pub send_frame : Bytes → Bytes
send_frame payload = to_bytes length_prefix_size (length payload) ++ payload

-- `StreamReader.readexactly`: the bytes read, and the rest of the stream.
unfoldable pub read_exactly : ℕ → Bytes → Result (Bytes × Bytes)
read_exactly n stream =
    if ltb (length stream) n then err Error.incomplete_read else ok (take n stream, drop n stream)

-- An announced payload over the limit is not read.
pub read_payload : ℕ → Bytes → Result (Bytes × Bytes)
read_payload length stream =
    if ltb max_payload_length length
    then err Error.received_too_long
    else read_exactly length stream

unfoldable pub receive : Bytes → Result (Bytes × Bytes)
receive stream = do
  (header, rest) ← read_exactly length_prefix_size stream
  let length = from_bytes header
  read_payload length rest

-- The `while True` of the receive loops, with fuel: the payloads that reach the callback, and the
-- error that ends the loop. `none` says that the fuel ran out.
unfoldable pub receive_loop : ℕ → Bytes → Option (List Bytes × Error)
receive_loop zero stream = none
receive_loop (suc fuel) stream = elim (receive stream) [
  | err e ↦ some ([], e)
  | ok (payload, rest) ↦ elim (receive_loop fuel rest) [
    | none ↦ none
    | some (payloads, e) ↦ some (payload ∷ payloads, e)
  ]
]

-- Each round takes a length prefix off the stream, so its length bounds the rounds.
unfoldable pub receive_all : Bytes → Option (List Bytes × Error)
receive_all stream = receive_loop (suc (length stream)) stream
