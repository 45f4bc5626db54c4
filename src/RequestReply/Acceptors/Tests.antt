-- ===== src/RequestReply/Acceptors/Tests.antt =====
-- Runs of the acceptors of a `RequestReplyClient` (software_bus/request_reply.py).
use software_bus.Prelude.{
  ℕ, ◌≡◌, refl, ◌==◌, not, ◌||◌, true, false, if◌then◌else◌, [], ◌∷◌, any, remove, member, Option,
  none, some, Error, err,
}
use software_bus.Text.{Text, codes, text_eq}
use software_bus.Text.Utf8.{encode}
use software_bus.Text.Split.{split}
use software_bus.Text.BigEndian.{to_bytes}
use software_bus.BaseLayer.Framing.{check_payload_length}
use software_bus.SubjectMatcher.{has_wildcard}
use software_bus.PubSub.Codec.{encode_message, encode_subject}
use software_bus.PubSub.Subscriptions.{get}
use software_bus.PubSub.Client.{add_registration, remove_registration, drop_registration}
use software_bus.PubSub.Client.Sessions.{
  connected_again, write, first_written, begin_subscribe, send_message, begin_unsubscribe,
  fail_subscribe,
}
use software_bus.PubSub.Client.Sessions.Told.{known}
use software_bus.RequestReply.{derived_request_subject, check_derived_subject}
use software_bus.RequestReply.Acceptors.{
  Acceptors, no_acceptors, set_session, set_acceptor, subscribed, begin_accept, fail_accept,
  begin_stop,
}
use software_bus.RequestReply.Acceptors.Kept.{is_acceptor}
use software_bus.RequestReply.Acceptors.Runs.{new, next, connects, accepts, Reach-accepting}

abbrev a_subject : Text
a_subject = codes "a"

-- The functions 7 and 8 are made for the callback 1.
abbrev made : ℕ → Option (Text × ℕ)
made n = if n == 7 || n == 8 then some (a_subject, 1) else none

abbrev connected : Acceptors
connected = set_session (connected_again no_acceptors.session) no_acceptors

abbrev accepting : Acceptors
accepting = (begin_accept a_subject 1 7 connected).1

-- An `accept_request` fails after its request subject has been stopped and accepted again: the function 8
-- stays registered, and `stop_accept_request` finds no acceptor to unregister.
abbrev crossed : Acceptors
crossed =
    (fail_accept a_subject 1 7 Error.connection_error
      (begin_accept a_subject 1 8 (begin_stop a_subject 1 accepting).1).1).1

crossed_runs :
    (crossed.acceptors a_subject 1 ≡ none)
    × (get (derived_request_subject a_subject) (begin_stop a_subject 1 crossed).1.session.table
        ≡ 8 ∷ [])
unfolding begin_accept fail_accept begin_stop check_derived_subject has_wildcard split text_eq
    encode subscribed begin_subscribe encode_message encode_subject get connected_again
    first_written write check_payload_length to_bytes set_acceptor begin_unsubscribe member remove
    fail_subscribe send_message add_registration drop_registration remove_registration
crossed_runs = (refl, refl)

-- After a stop, its failing raises a KeyError.
stopped_runs :
    (fail_accept a_subject 1 7 Error.connection_error (begin_stop a_subject 1 accepting).1).0
    ≡ err Error.key_error
unfolding begin_accept fail_accept begin_stop check_derived_subject has_wildcard split text_eq
    encode subscribed begin_subscribe encode_message encode_subject get connected_again
    first_written write check_payload_length to_bytes set_acceptor begin_unsubscribe member remove
    fail_subscribe send_message add_registration drop_registration remove_registration
stopped_runs = refl

Reach-accepting_example :
    let subject = derived_request_subject a_subject in
    let cs = get subject accepting.session.table in
    let b = is_acceptor 7 (accepting.acceptors a_subject 1) in
    ((not b || member 7 cs) ≡ true)
    × (member 7 (remove 7 cs) ≡ false)
    × ((not b
          || not accepting.session.connected
          || accepting.session.abandoned
          || known subject accepting.session
          || any (λ s'. text_eq s' subject) accepting.session.resending)
        ≡ true)
    × ((accepting.crossed || not (member 7 cs) || b) ≡ true)
unfolding connected_again get member
Reach-accepting_example =
    Reach-accepting made (next (next new (connects refl)) (accepts a_subject 1 7 refl refl))
      a_subject 1 7 refl
