-- ===== src/RequestReply/Waits/Tests.antt =====
-- The waits of requests (software_bus/request_reply.py) at a run.
use software_bus.Prelude.{
  ◌≡◌, refl, not, ◌&&◌, true, if◌then◌else◌, [], ◌∷◌, member, update, select,
}
use software_bus.RequestReply.Waits.{
  reply, closed, Requests, no_requests, send_request, sent, end_one, end_wait, end_without_reply,
  on_reply, call,
}
use software_bus.RequestReply.Waits.Proper.{in_order}
use software_bus.RequestReply.Waits.Runs.{
  here, onward, begins, is_sent, closes, replied, unsubscribes, Reach-Proper,
}

abbrev begun : Requests
begun = send_request 1 no_requests

-- A reply comes while the request is being sent, and the client is closed meanwhile.
abbrev late_close : Requests
late_close = end_one closed 1 (on_reply 1 begun)

abbrev ended : Requests
ended = sent (late_close.request 1).closed_meanwhile 1 late_close

abbrev told : Requests
told = end_without_reply (ended.request 1).ending 1 ended

calls_run : (told.request 1).calls ≡ reply ∷ closed ∷ []
unfolding send_request on_reply end_one sent end_wait end_without_reply call update select
calls_run = refl

still_sending : (late_close.request 1).sending ≡ true
unfolding send_request on_reply end_one call update
still_sending = refl

Reach-Proper_example :
    (member 1 told.requests ≡ ((told.request 1).begun && not (told.request 1).ended))
    × ((told.request 1).unsubscribed ≡ (if (told.request 1).ended then 1 else 0))
    × (in_order (told.request 1).calls ≡ true)
Reach-Proper_example =
    Reach-Proper
      (onward
        (onward (onward (onward (onward here (begins 1 refl)) (replied 1)) (closes closed 1 refl))
          (is_sent 1 still_sending))
        (unsubscribes 1))
      1
