-- ===== src/RequestReply/Waits/Runs.antt =====
-- Runs of `RequestReplyClient` (software_bus/request_reply.py): requests are sent, replied to and
-- ended, in any order.
use software_bus.Prelude.{
  ℕ, ◌≡◌, refl, arith, not, ◌&&◌, Bool, true, false, if◌then◌else◌, Option, none, some, List,
  member,
}
use software_bus.RequestReply.Waits.{
  ReplyStatus, Requests, no_requests, send_request, start_timer, end_without_reply, sent, not_sent,
  on_reply, on_replied, run_timer, cancel_request, end_one,
}
use software_bus.RequestReply.Waits.Proper.{is_reply, in_order, calls_ok, Proper, all-in_order}
use software_bus.RequestReply.Waits.Kept.{
  send_request-Proper, kept, end_without_reply-Proper, on_reply-Proper, on_replied-Proper,
  cancel_request-Proper, run_timer-Proper, sent-Proper, not_sent-Proper, end_one-Proper,
}

-- What happens, in any order.
pub data Step : Requests → Requests → Type 0 where
  begins : {s : Requests} (r : ℕ) → (s.request r).begun ≡ false → Step s (send_request r s)
  starts_timer : {s : Requests} (r : ℕ) → (s.request r).sending ≡ true → Step s (start_timer r s)
  is_sent :
      {s : Requests} (r : ℕ)
      → (s.request r).sending ≡ true
      → Step s (sent (s.request r).closed_meanwhile r s)
  is_not_sent : {s : Requests} (r : ℕ) → (s.request r).sending ≡ true → Step s (not_sent r s)
  replied : {s : Requests} (r : ℕ) → Step s (on_reply r s)
  returned : {s : Requests} (done : Bool) (r : ℕ) → Step s (on_replied done r s)
  times_out : {s : Requests} (r : ℕ) → (s.request r).timer ≡ true → Step s (run_timer r s)
  cancelled : {s : Requests} (r : ℕ) → Step s (cancel_request r s)
  closes :
      {s : Requests} (status : ReplyStatus) (r : ℕ)
      → is_reply status ≡ false
      → Step s (end_one status r s)
  unsubscribes : {s : Requests} (r : ℕ) → Step s (end_without_reply (s.request r).ending r s)

pub data Reach (s : Requests) : Requests → Type 0 where
  here : Reach s s
  onward : {t v : Requests} → Reach s t → Step t v → Reach s v

Step-Proper : {s t : Requests} → Step s t → Proper s → Proper t
unfolding start_timer
Step-Proper (begins {s} r b) h = send_request-Proper r s b h
Step-Proper (starts_timer {s} r b) h = kept r (s.request r).sending true s h
Step-Proper (is_sent {s} r b) h = sent-Proper (s.request r).closed_meanwhile r s (h r).later h
Step-Proper (is_not_sent {s} r b) h = not_sent-Proper r s h
Step-Proper (replied {s} r) h = on_reply-Proper r s h
Step-Proper (returned {s} done r) h = on_replied-Proper done r s h
Step-Proper (times_out {s} r b) h = run_timer-Proper r s h
Step-Proper (cancelled {s} r) h = cancel_request-Proper r s h
Step-Proper (closes {s} status r b) h = end_one-Proper status r s b h
Step-Proper (unsubscribes {s} r) h = end_without_reply-Proper (s.request r).ending r s refl h

reached : {s t : Requests} → Reach s t → Proper s → Proper t
reached here h = h
reached (onward r step) h = Step-Proper step (reached r h)

-- In every order of replies, timeouts, cancels, closes, losses and ends of sending: a request is among
-- the pending ones exactly while it has begun and its wait has not ended, the wait has been ended once
-- if it has ended and else never, and the calls of its callback are replies, followed by at most one
-- call of another status, after which there is none.
pub Reach-Proper :
    {s : Requests}
    → Reach no_requests s
    → (r : ℕ)
    → (member r s.requests ≡ ((s.request r).begun && not (s.request r).ended))
      × ((s.request r).unsubscribed ≡ (if (s.request r).ended then 1 else 0))
      × (in_order (s.request r).calls ≡ true)
Reach-Proper {s} path r =
    let p =
      reached path
        (λ d. unfold member in record { pending = refl; called = refl; later = refl; once = refl })
        r in
    (
      p.pending,
      p.once,
      calls-in_order (s.request r).ended (s.request r).ending (s.request r).calls p.called,
    )
  where
    calls-in_order :
        (ended : Bool) (ending : Option ReplyStatus) (calls : List ReplyStatus)
        → calls_ok ended ending calls ≡ true
        → in_order calls ≡ true
    calls-in_order false none calls h = all-in_order calls h
    calls-in_order false (some status) calls h = absurd (ground (arith, h))
    calls-in_order true none calls h = h
    calls-in_order true (some status) calls h = all-in_order calls (ground (arith, h))
