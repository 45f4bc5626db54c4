-- ===== src/BaseLayer/Client.antt =====
-- `BaseLayerClient` (software_bus/client.py). A `Connection` object is a number, new for each
-- connection that is made. Each function runs from one await of a coroutine to its next.
mod Laws
mod Tests
use software_bus.Prelude.{
  ℕ, not, ◌&&◌, Bool, true, false, if◌then◌else◌, Option, none, some, List, [], ◌∷◌, ◌++◌, length,
  select, ◌==◌, Result, ok, err, Error,
}
use software_bus.Text.{Bytes}
use software_bus.BaseLayer.Framing.{check_payload_length}

-- `made` are the connections that have been made, `started` those whose receive loop has been started;
-- `reported` is what the connection error callback has been called with, `received` what the receive
-- callback has, and `shut` are the connections whose `close` has been called.
pub record Client : Type 0 where
  pub connection : Option ℕ
  pub has_receive_callback : Bool
  pub made : List ℕ
  pub started : List ℕ
  pub reported : List ℕ
  pub received : List Bytes
  pub shut : List ℕ

abbrev pub new_client : Client
new_client = record {
  connection = none;
  has_receive_callback = false;
  made = [];
  started = [];
  reported = [];
  received = [];
  shut = [];
}

abbrev pub is_connection : ℕ → Option ℕ → Bool
is_connection c none = false
is_connection c (some d) = d == c

-- `connect` up to its await.
unfoldable pub begin_connect : Option ℕ → Result (Unit {0})
begin_connect none = ok tt
begin_connect (some c) = err Error.runtime_error

-- `asyncio.open_connection` has made the connection `c`, while `connected` is there.
unfoldable pub connect_with : ℕ → Option ℕ → Client → Result ℕ × Client
connect_with c none s =
    (ok c, record s { connection = some c; made = s.made ++ c ∷ []; started = s.started ++ c ∷ [] })
connect_with c (some connected) s =
    (err Error.runtime_error, record s { made = s.made ++ c ∷ []; shut = s.shut ++ c ∷ [] })

abbrev pub connect : ℕ → Client → Result ℕ × Client
connect c s = connect_with c s.connection s

-- `send` up to its await: the connection that the data is written to.
unfoldable pub begin_send_on : Option ℕ → ℕ → Result ℕ
begin_send_on none size = err Error.runtime_error
begin_send_on (some c) size = elim (check_payload_length size) [ ok u ↦ ok c | err e ↦ err e ]

abbrev pub send : Bytes → Client → Result ℕ
send bytes s = begin_send_on s.connection (length bytes)

-- `_handle_connection_error` up to the end of the callback, and its end. It is called where a send has
-- failed, or has taken too long, and where the receive loop ends with an error.
unfoldable pub handle_client_error : ℕ → Client → Client
handle_client_error c s =
    if is_connection c s.connection
    then record s { connection = none; reported = s.reported ++ c ∷ [] }
    else s

unfoldable pub close_failed : ℕ → Client → Client
close_failed c s = record s { shut = s.shut ++ c ∷ [] }

-- The receive loop has read a message.
unfoldable pub on_data_received : Bytes → Client → Client
on_data_received bytes s =
    if s.has_receive_callback then record s { received = s.received ++ bytes ∷ [] } else s

abbrev pub register_receive_callback : Bool → Client → Client
register_receive_callback given s = record s { has_receive_callback = given }

-- `close` up to its await, and its end.
unfoldable pub begin_close : Option ℕ → Client → Client
begin_close none s = s
begin_close (some c) s = record s { shut = s.shut ++ c ∷ [] }

unfoldable pub end_close : Client → Client
end_close s = record s { connection = none }
