-- ===== src/Scripts/Tests.antt =====
-- Runs of the scripts (software_bus/_cli.py, rr_request.py and the others).
use software_bus.Prelude.{
  none, ◌≡◌, refl, not, ◌||◌, ◌&&◌, true, false, [], ◌∷◌, ◌++◌, some, ◌⊎◌, List, update,
}
use software_bus.Text.{codes, text_eq}
use software_bus.Text.Utf8.{encode}
use software_bus.Text.BigEndian.{to_bytes}
use software_bus.Text.Split.{split}
use software_bus.SubjectMatcher.{has_wildcard}
use software_bus.PubSub.Codec.{check_subject, check_publish_subject, encode_subject}
use software_bus.BaseLayer.Node.{Address}
use software_bus.Cli.{refused}
use software_bus.RequestReply.{check_request_subject, check_derived_subject}
use software_bus.RequestReply.Waits.{
  Requests, no_requests, send_request, sent, start_timer, end_wait, call, run_timer,
  end_without_reply, timed_out,
}
use software_bus.RequestReply.Waits.Runs.{
  onward, here, begins, starts_timer, is_sent, times_out, unsubscribes,
}
use software_bus.Scripts.{
  Act, connects, publishes, accepts, sleeps, waits_forever, closes, returned, raised, Raised,
  os_error, cannot_connect, connection_lost, invalid_subject, quiet, lost, perform, check_subjects,
  run_client, closing, Body,
}
use software_bus.Scripts.Clients.{run_publish, subscribing, replying, without_duplicates}
use software_bus.Scripts.Servers.{run_reconnecting_server, interrupted_if}
use software_bus.Scripts.Servers.Laws.{server_acts, server_outcome, run_reconnecting_server_lem}
use software_bus.Scripts.Requesting.{run_request, request_acts, request_outcome, run_request_lem}
use software_bus.Scripts.Laws.{
  is_returned, is_lost, is_connection_lost, nothing_left, closed_after, run_client_lem,
}

-- The connection is lost during the sleep between two publishes.
lost_runs :
    run_publish (codes "a") (codes "hi") 2 (returned ∷ returned ∷ []) lost
    ≡ (connects ∷ publishes (codes "a") (codes "hi") ∷ sleeps ∷ closes ∷ [], raised connection_lost)
unfolding run_client check_subjects perform encode check_publish_subject check_subject
    encode_subject to_bytes has_wildcard split text_eq
lost_runs = refl

unreachable_runs :
    run_publish (codes "a") (codes "hi") 2 (raised os_error ∷ []) quiet
    ≡ (connects ∷ closes ∷ [], raised cannot_connect)
unfolding run_client check_subjects perform encode check_publish_subject check_subject
    encode_subject to_bytes has_wildcard split text_eq
unreachable_runs = refl

refused_runs :
    run_publish (codes "a.*") (codes "hi") 2 [] quiet ≡ ([], raised (invalid_subject (codes "a.*")))
unfolding run_client check_subjects encode check_publish_subject check_subject encode_subject
    to_bytes has_wildcard split text_eq
refused_runs = refl

replying_runs :
    (replying (codes "a" ∷ codes "b" ∷ codes "a" ∷ [])).0
    ≡ connects ∷ accepts (codes "a") ∷ accepts (codes "b") ∷ waits_forever ∷ []
unfolding without_duplicates text_eq
replying_runs = refl

abbrev one_subject : Body
one_subject = subscribing (codes "a" ∷ [])

run_client_lem_example :
    let r = run_client check_subject (codes "a" ∷ []) one_subject (returned ∷ returned ∷ []) lost in
    ((e : Raised) × (check_subjects check_subject (codes "a" ∷ []) ≡ some e) × (r ≡ ([], raised e)))
    ⊎ ((check_subjects check_subject (codes "a" ∷ []) ≡ none)
        × (begun : List Act) × (rest : List Act) × (begun ++ rest ≡ one_subject.0)
        × (r.0 ≡ closed_after r.1 begun)
        × ((not (is_returned r.1) || (nothing_left rest && is_returned one_subject.1)) ≡ true)
        × ((not (is_lost lost) || is_connection_lost r.1) ≡ true))
run_client_lem_example =
    run_client_lem check_subject (codes "a" ∷ []) one_subject.0 one_subject.1
      (returned ∷ returned ∷ []) lost

abbrev local : Address
local = (codes "::1", 6000)

run_reconnecting_server_lem_example :
    run_reconnecting_server (local ∷ []) (returned ∷ []) ((refused false ∷ []) ∷ []) false ≡ (
      closed_after
          (server_outcome false ((refused false ∷ []) ∷ []))
          (server_acts (local ∷ []) ((refused false ∷ []) ∷ [])),
      server_outcome false ((refused false ∷ []) ∷ []),
    )
run_reconnecting_server_lem_example =
    run_reconnecting_server_lem (local ∷ []) ((refused false ∷ []) ∷ []) false

-- A request whose wait times out without a reply.
abbrev sent_request : Requests
sent_request = start_timer 0 (send_request 0 no_requests)

abbrev timed_out_request : Requests
timed_out_request =
    let s = run_timer 0 (sent (sent_request.request 0).closed_meanwhile 0 sent_request) in
    end_without_reply (s.request 0).ending 0 s

run_request_lem_example :
    run_request
      (codes "a")
      (codes "hi")
      returned
      returned
      true
      (timed_out_request.request 0).calls
      (interrupted_if false)
    ≡ closing (
      request_acts (codes "a") (codes "hi"),
      request_outcome true false (timed_out_request.request 0).calls,
    )
unfolding send_request start_timer sent update check_request_subject check_derived_subject
    has_wildcard split text_eq encode
run_request_lem_example =
    run_request_lem
      (onward
        (onward
          (onward (onward (onward here (begins 0 refl)) (starts_timer 0 refl)) (is_sent 0 refl))
          (times_out 0 refl))
        (unsubscribes 0))
      0 (codes "a") (codes "hi") (codes "hi") true false refl refl

no_reply_runs : (timed_out_request.request 0).calls ≡ timed_out ∷ []
unfolding send_request start_timer sent update run_timer end_without_reply end_wait call
no_reply_runs = refl
