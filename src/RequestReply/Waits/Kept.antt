-- ===== src/RequestReply/Waits/Kept.antt =====
-- Every method of `RequestReplyClient` (software_bus/request_reply.py) keeps its requests proper.
use software_bus.Prelude.{
  ℕ, ◌≡◌, refl, sym, ap, arith, ◌∙◌, not, ◌&&◌, Bool, true, false, if◌then◌else◌, Option, none,
  some, List, [], ◌∷◌, ◌++◌, member, member-append, update, update_self, ◌==◌, Bool-cases, inl, inr,
}
use software_bus.RequestReply.Waits.{
  ReplyStatus, reply, timed_out, Request, Requests, set_request, send_request, end_wait, call,
  end_without_reply, sent, not_sent, on_reply, on_replied, run_timer, cancel_request, end_one,
}
use software_bus.RequestReply.Waits.Proper.{
  is_reply, calls_ok, is_end, Proper, in_order-append, all-append, set_request-Proper,
  end_wait-Proper,
}

pub send_request-Proper :
    (r : ℕ) (s : Requests) → (s.request r).begun ≡ false → Proper s → Proper (send_request r s)
unfolding send_request update member
send_request-Proper r s fresh h d = elim (Bool-cases (r == d)) [
  | inl same ↦ simp same (record {
    pending = ground (arith, member-append d s.requests (r ∷ []), same);
    called = refl;
    later = refl;
    once = refl;
  })
  | inr other ↦ simp other (record {
    pending = ground (arith, other, member-append d s.requests (r ∷ []), (h d).pending);
    called = (h d).called;
    later = (h d).later;
    once = (h d).once;
  })
]

-- A request of which only `sending` or `timer` changes.
pub kept :
    (r : ℕ) (sending timer : Bool) (s : Requests)
    → Proper s
    → Proper (set_request r (record (s.request r) { sending = sending; timer = timer }) s)
kept r sending timer s h =
    set_request-Proper r _ s
      (record {
        pending = (h r).pending;
        called = (h r).called;
        later = (h r).later;
        once = (h r).once;
      })
      h

last_call :
    (ended : Bool) (status : ReplyStatus) (calls : List ReplyStatus)
    → calls_ok ended (some status) calls ≡ true
    → calls_ok ended none (calls ++ status ∷ []) ≡ true
last_call false status calls h = absurd (ground (arith, h))
last_call true status calls h = in_order-append calls status (ground (arith, h))

pub end_without_reply-Proper :
    (ending : Option ReplyStatus) (r : ℕ) (s : Requests)
    → (s.request r).ending ≡ ending
    → Proper s
    → Proper (end_without_reply ending r s)
unfolding end_without_reply call
end_without_reply-Proper none r s e h = h
end_without_reply-Proper (some status) r s e h =
    set_request-Proper r _ s
      (record {
        pending = (h r).pending;
        called =
            last_call (s.request r).ended status (s.request r).calls
              (ap (λ o. calls_ok (s.request r).ended o (s.request r).calls) (sym e) ∙ (h r).called);
        later = (h r).later;
        once = (h r).once;
      })
      h

reply_call :
    (ended : Bool) (ending : Option ReplyStatus) (calls : List ReplyStatus)
    → ended ≡ false
    → calls_ok ended ending calls ≡ true
    → calls_ok ended none (calls ++ reply ∷ []) ≡ true
reply_call false none calls e h = all-append calls h
reply_call false (some status) calls e h = absurd (ground (arith, h))
reply_call true ending calls e h = absurd (ground (arith, e))

if-Proper :
    (b : Bool) (s t : Requests)
    → (b ≡ true → Proper s)
    → (b ≡ false → Proper t)
    → Proper (if b then s else t)
if-Proper true s t first second = first refl
if-Proper false s t first second = second refl

pub on_reply-Proper : (r : ℕ) (s : Requests) → Proper s → Proper (on_reply r s)
unfolding on_reply call
on_reply-Proper r s h =
    if-Proper (s.request r).ended _ _ (λ e. h)
      (λ e.
        set_request-Proper r _ s
          (record {
            pending = (h r).pending;
            called =
                reply_call (s.request r).ended (s.request r).ending (s.request r).calls e
                  (h r).called;
            later = (h r).later;
            once = (h r).once;
          })
          h)

pub on_replied-Proper :
    (done : Bool) (r : ℕ) (s : Requests) → Proper s → Proper (on_replied done r s)
unfolding on_replied
on_replied-Proper done r s h =
    if-Proper (done && not (s.request r).ended) _ _
      (λ e. end_wait-Proper none r s refl (ground (arith, e)) h) (λ e. h)

pub cancel_request-Proper : (r : ℕ) (s : Requests) → Proper s → Proper (cancel_request r s)
unfolding cancel_request
cancel_request-Proper r s h =
    if-Proper (member r s.requests && not (s.request r).ended) _ _
      (λ e. end_wait-Proper none r s refl (ground (arith, e)) h) (λ e. h)

unchanged-ended :
    (r : ℕ) (sending timer : Bool) (s : Requests)
    → ((set_request r (record (s.request r) { sending = sending; timer = timer }) s).request
        r).ended
      ≡ (s.request r).ended
unchanged-ended r sending timer s = ap (λ (q : Request). q.ended) (update_self s.request r _)

pub run_timer-Proper : (r : ℕ) (s : Requests) → Proper s → Proper (run_timer r s)
unfolding run_timer
run_timer-Proper r s h =
    let k = kept r (s.request r).sending false s h in
    if-Proper (s.request r).ended _ _ (λ e. k)
      (λ e.
        end_wait-Proper (some timed_out) r _ refl
          (unchanged-ended r (s.request r).sending false s ∙ e) k)

pub sent-Proper :
    (closed_meanwhile : Option ReplyStatus) (r : ℕ) (s : Requests)
    → is_end closed_meanwhile ≡ true
    → Proper s
    → Proper (sent closed_meanwhile r s)
unfolding sent
sent-Proper none r s c h = kept r false (s.request r).timer s h
sent-Proper (some status) r s c h =
    let k = kept r false (s.request r).timer s h in
    if-Proper (s.request r).ended _ _ (λ e. k)
      (λ e.
        end_wait-Proper (some status) r _ c (unchanged-ended r false (s.request r).timer s ∙ e) k)

pub not_sent-Proper : (r : ℕ) (s : Requests) → Proper s → Proper (not_sent r s)
unfolding not_sent
not_sent-Proper r s h =
    let s' = if (s.request r).ended then s else end_wait none r s in
    kept r false (s'.request r).timer s'
      (if-Proper (s.request r).ended _ _ (λ e. h) (λ e. end_wait-Proper none r s refl e h))

pub end_one-Proper :
    (status : ReplyStatus) (r : ℕ) (s : Requests)
    → is_reply status ≡ false
    → Proper s
    → Proper (end_one status r s)
unfolding end_one
end_one-Proper status r s n h =
    if-Proper (s.request r).ended _ _ (λ e. h)
      (λ e.
        if-Proper (s.request r).sending _ _
          (λ _.
            set_request-Proper r _ s
              (record {
                pending = (h r).pending;
                called = (h r).called;
                later = ground (arith, n);
                once = (h r).once;
              })
              h)
          (λ _. end_wait-Proper (some status) r s (ground (arith, n)) e h))
