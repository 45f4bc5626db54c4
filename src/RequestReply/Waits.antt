-- ===== src/RequestReply/Waits.antt =====
-- The requests of `RequestReplyClient` (software_bus/request_reply.py) and the ends of their waits. A
-- request is a number, for its reply subject, which is unique. Each function runs from one await of a
-- coroutine to its next.
pub mod Proper
mod Kept
pub mod Runs
mod Tests
use software_bus.Prelude.{
  ℕ, ◌+◌, not, ◌&&◌, Bool, true, false, if◌then◌else◌, Option, none, some, List, [], ◌∷◌, ◌++◌,
  member, update, select, ◌==◌,
}

pub data ReplyStatus : Type 0 where
  reply : ReplyStatus
  timed_out : ReplyStatus
  closed : ReplyStatus
  connection_lost : ReplyStatus

-- `ending` is the status that an `_end_without_reply` has still to call the callback with, `calls` what
-- the callback has been called with, and `unsubscribed` how often `_end_wait` has unsubscribed.
pub record Request : Type 0 where
  pub begun : Bool
  pub sending : Bool
  pub timer : Bool
  pub closed_meanwhile : Option ReplyStatus
  pub ended : Bool
  pub ending : Option ReplyStatus
  pub calls : List ReplyStatus
  pub unsubscribed : ℕ

abbrev pub not_begun : Request
not_begun = record {
  begun = false;
  sending = false;
  timer = false;
  closed_meanwhile = none;
  ended = false;
  ending = none;
  calls = [];
  unsubscribed = 0;
}

-- The keys of `_requests`, and the objects.
pub record Requests : Type 0 where
  pub requests : List ℕ
  pub request : ℕ → Request

abbrev pub no_requests : Requests
no_requests = record { requests = []; request = λ r. not_begun }

abbrev pub set_request : ℕ → Request → Requests → Requests
set_request r q s = record s { request = update s.request r q }

-- `send_request` up to its subscribe.
unfoldable pub send_request : ℕ → Requests → Requests
send_request r s = record s {
  requests = s.requests ++ r ∷ [];
  request = update s.request r (record not_begun { begun = true; sending = true });
}

-- What it does once it has subscribed, if there is a timeout.
unfoldable pub start_timer : ℕ → Requests → Requests
start_timer r s = set_request r (record (s.request r) { timer = true }) s

-- `_end_wait`, which unsubscribes at its end; `ending` is what its caller calls the callback with
-- after it.
unfoldable pub end_wait : Option ReplyStatus → ℕ → Requests → Requests
end_wait ending r s = record s {
  requests = select (λ other. not (other == r)) s.requests;
  request = update s.request r (record (s.request r) {
    ended = true;
    timer = false;
    ending = ending;
    unsubscribed = (s.request r).unsubscribed + 1;
  });
}

-- The callback is called.
unfoldable pub call : ReplyStatus → ℕ → Requests → Requests
call status r s =
    set_request r
      (record (s.request r) { calls = (s.request r).calls ++ status ∷ []; ending = none }) s

-- The rest of `_end_without_reply`, after `_end_wait`.
unfoldable pub end_without_reply : Option ReplyStatus → ℕ → Requests → Requests
end_without_reply none r s = s
end_without_reply (some status) r s = call status r s

-- The end of `send_request`, whose publish has returned.
unfoldable pub sent : Option ReplyStatus → ℕ → Requests → Requests
sent closed_meanwhile r s =
    let s' = set_request r (record (s.request r) { sending = false }) s in
    elim closed_meanwhile [
      | none ↦ s'
      | some status ↦ if (s.request r).ended then s' else end_wait (some status) r s'
    ]

-- The end of `send_request` where subscribe or publish has raised.
unfoldable pub not_sent : ℕ → Requests → Requests
not_sent r s =
    let s' = if (s.request r).ended then s else end_wait none r s in
    set_request r (record (s'.request r) { sending = false }) s'

-- `on_reply` up to what the callback returns, and what follows it.
unfoldable pub on_reply : ℕ → Requests → Requests
on_reply r s = if (s.request r).ended then s else call reply r s

unfoldable pub on_replied : Bool → ℕ → Requests → Requests
on_replied done r s = if done && not (s.request r).ended then end_wait none r s else s

-- The sleep of `_run_timer` has ended.
unfoldable pub run_timer : ℕ → Requests → Requests
run_timer r s =
    let s' = set_request r (record (s.request r) { timer = false }) s in
    if (s.request r).ended then s' else end_wait (some timed_out) r s'

unfoldable pub cancel_request : ℕ → Requests → Requests
cancel_request r s = if member r s.requests && not (s.request r).ended then end_wait none r s else s

-- The body of the loop of `_end_all_without_reply`, for a request that was pending when it began.
unfoldable pub end_one : ReplyStatus → ℕ → Requests → Requests
end_one status r s =
    let q = s.request r in
    if q.ended
    then s
    else if q.sending
    then set_request r (record q { closed_meanwhile = some status }) s
    else end_wait (some status) r s
