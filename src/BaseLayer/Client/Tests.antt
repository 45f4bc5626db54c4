-- ===== src/BaseLayer/Client/Tests.antt =====
-- The theorems about `BaseLayerClient` (software_bus/client.py) at a run.
use software_bus.Prelude.{◌≡◌, refl, not, ◌||◌, true, false, none, [], ◌∷◌, member, distinct}
use software_bus.BaseLayer.Client.{
  Client, new_client, connect, connect_with, handle_client_error, begin_close, end_close,
}
use software_bus.BaseLayer.Client.Laws.{
  here, onward, connects, fails, closes, closed, Reach-reported,
}

abbrev first : Client
first = (connect 1 new_client).1

-- A send fails while `close` waits for the connection to be flushed.
abbrev failed : Client
failed = handle_client_error 1 (begin_close first.connection first)

-- Before that wait ends, the client is connected again.
abbrev again : Client
again = (connect 2 failed).1

-- `close` then forgets the new connection, which it has not closed.
forgotten_run : end_close again ≡ record again { connection = none; shut = 1 ∷ [] }
unfolding end_close connect_with handle_client_error begin_close
forgotten_run = refl

not_new : member 2 failed.made ≡ false
unfolding connect_with handle_client_error begin_close member
not_new = refl

Reach-reported_example :
    (distinct (end_close again).reported ≡ true)
    × ((not (member 1 (end_close again).reported) || member 1 (end_close again).started) ≡ true)
Reach-reported_example =
    Reach-reported
      (onward
        (onward (onward (onward (onward here (connects 1 fresh)) closes) (fails 1))
          (connects 2 not_new))
        closed)
      1
  where
    fresh : member 1 new_client.made ≡ false
    fresh = unfold member in refl
