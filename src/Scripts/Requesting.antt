-- ===== src/Scripts/Requesting.antt =====
-- What rr_request (software_bus/rr_request.py) does with the replies that the wait of its request is
-- called with.
use software_bus.Prelude.{
  ℕ, ◌+◌, ◌==◌, ==_iff, ◌≡◌, refl, arith, not, ◌&&◌, ◌||◌, Bool, true, false, if◌then◌else◌, List,
  [], ◌∷◌, ◌++◌, any, ◌∙◌, ok, Bool-cases, inl, inr,
}
use software_bus.Text.{Text, Bytes}
use software_bus.RequestReply.Waits.{
  ReplyStatus, reply, timed_out, closed, connection_lost, Requests, no_requests,
}
use software_bus.RequestReply.Waits.Proper.{in_order}
use software_bus.RequestReply.Waits.Runs.{Reach, Reach-Proper}
use software_bus.RequestReply.{check_request_subject}
use software_bus.Text.Utf8.{encode}
use software_bus.Scripts.Clients.{encoded, requesting}
use software_bus.Scripts.Servers.{interrupted_if}
use software_bus.Scripts.{
  Act, Outcome, waiting, returned, raised, cancelled, no_reply, Watch, perform, check_subjects,
  run_client, closing, until_lost, connects, requests, waits_ended,
}

-- The count of replies, whether the future `ended` is set, and the statuses that a line is printed for.
pub record Waiting : Type 0 where
  pub replies : ℕ
  pub ended : Bool
  pub printed : List ReplyStatus

abbrev pub nothing_yet : Waiting
nothing_yet = record { replies = 0; ended = false; printed = [] }

abbrev pub set_ended : Waiting → Waiting
set_ended w = record w { ended = true }

abbrev pub print : ReplyStatus → Waiting → Waiting
print status w = record w { printed = w.printed ++ status ∷ [] }

-- `on_reply`: whether it is done, and what it leaves.
unfoldable pub on_reply : Bool → ReplyStatus → Waiting → Bool × Waiting
on_reply continue_waiting reply w =
    let w' = print reply (record w { replies = w.replies + 1 }) in
    if continue_waiting then (false, w') else (true, set_ended w')
on_reply continue_waiting timed_out w = (true, set_ended (print timed_out w))
on_reply continue_waiting status w = (false, w)

-- The calls of a request's callback, in order.
unfoldable pub after_calls : Bool → List ReplyStatus → Waiting → Waiting
after_calls continue_waiting [] w = w
after_calls continue_waiting (status ∷ calls) w =
    after_calls continue_waiting calls (on_reply continue_waiting status w).1

-- `if replies == 0: raise NoReply`
abbrev pub checked_replies : Waiting → List Act × Outcome → List Act × Outcome
checked_replies w (acts, returned) = (acts, if w.replies == 0 then raised no_reply else returned)
checked_replies w (acts, o) = (acts, o)

-- `run` of rr_request, where `calls` are the calls of its callback: its body's last call returns once
-- `ended` is set.
unfoldable pub run_request :
    Text → Text → Outcome → Outcome → Bool → List ReplyStatus → Watch → List Act × Outcome
run_request request_subject message connecting requested continue_waiting calls watch =
    let w = after_calls continue_waiting calls nothing_yet in
    checked_replies w (
      run_client (λ subject. check_request_subject subject true) (request_subject ∷ [])
        (requesting request_subject message)
        (connecting ∷ requested ∷ (if w.ended then returned else waiting) ∷ []) watch)

-- The future is set and nothing has been counted.
abbrev pub gives_up : Waiting → Bool
gives_up w = w.ended && w.replies == 0

abbrev pub only_timed_out : List ReplyStatus → Bool
only_timed_out (timed_out ∷ []) = true
only_timed_out calls = false

-- Replies count, whatever follows.
after_calls-replies :
    (b : Bool) (calls : List ReplyStatus) (w : Waiting)
    → (w.replies == 0) ≡ false
    → ((after_calls b calls w).replies == 0) ≡ false
unfolding after_calls on_reply
after_calls-replies b [] w h = h
after_calls-replies true (reply ∷ calls) w h =
    after_calls-replies true calls _ (ground (arith, ==_iff (w.replies + 1) 0))
after_calls-replies false (reply ∷ calls) w h =
    after_calls-replies false calls _ (ground (arith, ==_iff (w.replies + 1) 0))
after_calls-replies b (timed_out ∷ calls) w h = after_calls-replies b calls _ h
after_calls-replies b (closed ∷ calls) w h = after_calls-replies b calls _ h
after_calls-replies b (connection_lost ∷ calls) w h = after_calls-replies b calls _ h

in_order-gives_up :
    (b : Bool) (calls : List ReplyStatus)
    → in_order calls ≡ true
    → gives_up (after_calls b calls nothing_yet) ≡ only_timed_out calls
unfolding after_calls on_reply in_order
in_order-gives_up b [] h = refl
in_order-gives_up true (reply ∷ calls) h =
    ground (arith, after_calls-replies true calls (on_reply true reply nothing_yet).1 refl)
in_order-gives_up false (reply ∷ calls) h =
    ground (arith, after_calls-replies false calls (on_reply false reply nothing_yet).1 refl)
in_order-gives_up b (timed_out ∷ []) h = refl
in_order-gives_up b (closed ∷ []) h = refl
in_order-gives_up b (connection_lost ∷ []) h = refl
in_order-gives_up b (timed_out ∷ c ∷ calls) h = absurd (ground (arith, h))
in_order-gives_up b (closed ∷ c ∷ calls) h = absurd (ground (arith, h))
in_order-gives_up b (connection_lost ∷ c ∷ calls) h = absurd (ground (arith, h))

-- The statuses after which `on_reply` is done.
abbrev pub is_done : Bool → ReplyStatus → Bool
is_done continue_waiting reply = not continue_waiting
is_done continue_waiting timed_out = true
is_done continue_waiting status = false

ended-after_calls :
    (b : Bool) (calls : List ReplyStatus) (w : Waiting)
    → (after_calls b calls w).ended ≡ (w.ended || any (is_done b) calls)
unfolding after_calls on_reply
ended-after_calls b [] w = ground arith
ended-after_calls true (reply ∷ calls) w = ended-after_calls true calls _
ended-after_calls false (reply ∷ calls) w = ended-after_calls false calls _ ∙ ground arith
ended-after_calls b (timed_out ∷ calls) w = ended-after_calls b calls _ ∙ ground arith
ended-after_calls b (closed ∷ calls) w = ended-after_calls b calls _
ended-after_calls b (connection_lost ∷ calls) w = ended-after_calls b calls _

-- How rr_request ends by its request alone.
abbrev pub request_outcome : Bool → Bool → List ReplyStatus → Outcome
request_outcome continue_waiting is_interrupted calls =
    if only_timed_out calls
    then raised no_reply
    else if any (is_done continue_waiting) calls
    then returned
    else if is_interrupted
    then raised cancelled
    else waiting

checked_lem :
    (acts : List Act) (w : Waiting) (b i : Bool) (calls : List ReplyStatus)
    → w.ended ≡ any (is_done b) calls
    → gives_up w ≡ only_timed_out calls
    → checked_replies w
        (closing (acts, until_lost (interrupted_if i) (if w.ended then returned else waiting)))
      ≡ closing (acts, request_outcome b i calls)
checked_lem acts w b i calls e g = elim (Bool-cases w.ended) [
  | inl f ↦ ground (arith, f, e, g)
  | inr f ↦ elim (Bool-cases i) [
    | inl j ↦ ground (arith, f, e, g, j)
    | inr j ↦ ground (arith, f, e, g, j)
  ]
]

-- The calls of rr_request.
abbrev pub request_acts : Text → Bytes → List Act
request_acts subject payload = connects ∷ requests subject payload ∷ waits_ended ∷ []

requesting-request_acts :
    (subject message : Text) (payload : Bytes)
    → encode message ≡ ok payload
    → requesting subject message ≡ (request_acts subject payload, returned)
requesting-request_acts subject message payload g = rw (g, encoded) refl

performed_lem :
    (subject : Text) (payload : Bytes) (ended : Bool)
    → perform
        (request_acts subject payload)
        returned
        (returned ∷ returned ∷ (if ended then returned else waiting) ∷ [])
      ≡ (request_acts subject payload, if ended then returned else waiting)
unfolding perform
performed_lem subject payload true = refl
performed_lem subject payload false = refl

-- Where its subject passes the check, its message is encoded, the connection is made and not lost, and
-- the request is sent, rr_request connects, sends the request and waits. It fails with NoReply if the
-- one call of the request's callback says that the wait has timed out, succeeds if there is a reply
-- before that or one that it was to stop at, and else waits until it is interrupted; and where it has
-- ended, it has closed the client last.
pub run_request_lem :
    {s : Requests}
    → Reach no_requests s
    → (r : ℕ) (subject message : Text) (payload : Bytes) (b i : Bool)
    → check_request_subject subject true ≡ ok tt
    → encode message ≡ ok payload
    → run_request subject message returned returned b (s.request r).calls (interrupted_if i)
      ≡ closing (request_acts subject payload, request_outcome b i (s.request r).calls)
unfolding run_request run_client check_subjects
run_request_lem {s} path r subject message payload b i h g =
    let calls = (s.request r).calls in
    let w = after_calls b calls nothing_yet in
    rw (h, run_client)
      (rw (requesting-request_acts subject message payload g) (
        rw (performed_lem subject payload w.ended) (
          checked_lem (request_acts subject payload) w b i calls
            (ended-after_calls b calls nothing_yet)
            (in_order-gives_up b calls (Reach-Proper path r).2))))
