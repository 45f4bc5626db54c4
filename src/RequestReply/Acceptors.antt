-- ===== src/RequestReply/Acceptors.antt =====
-- The acceptors of `RequestReplyClient` (software_bus/request_reply.py), on the calls of its
-- `PubSubClient` from await to await. Its `on_request` functions are numbers among the callbacks there.
mod Kept
mod Calls
mod Runs
mod Tests
use software_bus.Prelude.{
  ℕ, ◌==◌, not, ◌&&◌, ◌||◌, Bool, true, false, if◌then◌else◌, Option, none, some, Result, ok, err,
  Error,
}
use software_bus.Text.{Text, text_eq}
use software_bus.RequestReply.{derived_request_subject, check_derived_subject}
use software_bus.PubSub.Client.Sessions.{
  Session, new_session, begin_subscribe, fail_subscribe, begin_unsubscribe,
}

-- `_acceptors` maps a request subject and a callback to an `on_request`. `crossed` is whether a failed
-- call has deleted the entry that another call had made.
pub record Acceptors : Type 0 where
  pub acceptors : Text → ℕ → Option ℕ
  pub session : Session
  pub crossed : Bool

abbrev pub no_acceptors : Acceptors
no_acceptors = record {
  acceptors = λ request_subject c. none;
  session = new_session;
  crossed = false;
}

unfoldable pub set_acceptor : Text → ℕ → Option ℕ → Acceptors → Acceptors
set_acceptor request_subject c v a = record a {
  acceptors = λ request_subject' c'.
      if text_eq request_subject request_subject' && c == c'
      then v
      else a.acceptors request_subject' c';
}

abbrev pub set_session : Session → Acceptors → Acceptors
set_session s a = record a { session = s }

-- Where the subscribe raises, the entry goes again.
unfoldable pub subscribed :
    Text → ℕ → Result (Unit {0}) × Session → Acceptors → Result (Unit {0}) × Acceptors
subscribed request_subject c (ok u, s) a = (ok u, set_session s a)
subscribed request_subject c (err e, s) a =
    (err e, set_acceptor request_subject c none (set_session s a))

-- `accept_request`, with `n` for the function `on_request` that it makes.
unfoldable pub begin_accept : Text → ℕ → ℕ → Acceptors → Result (Unit {0}) × Acceptors
begin_accept request_subject c n a =
    let subject = derived_request_subject request_subject in
    elim (check_derived_subject request_subject subject) [
      | err e ↦ (err e, a)
      | ok u ↦ elim (a.acceptors request_subject c) [
        | some m ↦ (ok tt, a)
        | none ↦
            subscribed request_subject c (begin_subscribe subject n a.session)
              (set_acceptor request_subject c (some n) a)
      ]
    ]

-- The subscribe that an `accept_request` waits for raises `e`, or the call is cancelled: `del` removes
-- the entry that is there then.
unfoldable pub fail_accept : Text → ℕ → ℕ → Error → Acceptors → Result (Unit {0}) × Acceptors
fail_accept request_subject c n e a =
    let a' = set_session (fail_subscribe (derived_request_subject request_subject) n a.session) a in
    elim (a.acceptors request_subject c) [
      | none ↦ (err Error.key_error, a')
      | some m ↦ (
        err e,
        record (set_acceptor request_subject c none a') { crossed = a.crossed || not (m == n) },
      )
    ]

abbrev pub in_session : Result (Unit {0}) × Session → Acceptors → Result (Unit {0}) × Acceptors
in_session (r, s) a = (r, set_session s a)

-- `stop_accept_request`
unfoldable pub begin_stop : Text → ℕ → Acceptors → Result (Unit {0}) × Acceptors
begin_stop request_subject c a =
    let subject = derived_request_subject request_subject in
    elim (check_derived_subject request_subject subject) [
      | err e ↦ (err e, a)
      | ok u ↦ elim (a.acceptors request_subject c) [
        | none ↦ (ok tt, a)
        | some n ↦
            in_session (begin_unsubscribe subject n a.session)
              (set_acceptor request_subject c none a)
      ]
    ]
