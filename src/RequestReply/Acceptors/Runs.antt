-- ===== src/RequestReply/Acceptors/Runs.antt =====
-- The calls of a `RequestReplyClient` (software_bus/request_reply.py) that change its acceptors or the
-- registrations below them, in any order and overlapping, from its construction. What an `on_request`
-- has been made with, `captured`, tells it from an `on_reply`, which has `none`.
use software_bus.Prelude.{
  ℕ, ◌≡◌, ◌≢◌, refl, ap, arith, not, ◌||◌, true, false, List, [], ◌∷◌, any, member, remove, Option,
  none, some, Error, inl, inr,
}
use software_bus.Text.{Text, text_eq}
use software_bus.RequestReply.{derived_request_subject}
use software_bus.PubSub.Subscriptions.{get}
use software_bus.PubSub.Client.{is_empty}
use software_bus.PubSub.Client.Sessions.{
  Session, begin_subscribe, fail_subscribe, begin_unsubscribe, connected_again, resend,
  disconnected, abandon,
}
use software_bus.PubSub.Client.Sessions.Told.{known, IsTold, told_lem}
use software_bus.PubSub.Client.Sessions.Callbacks.{
  Begun, get-begin_subscribe, get-fail_subscribe, get-begin_unsubscribe, table-resend,
}
use software_bus.PubSub.Client.Sessions.Runs as Sessions
use software_bus.RequestReply.Acceptors.{
  Acceptors, no_acceptors, set_session, begin_accept, fail_accept, begin_stop,
}
use software_bus.RequestReply.Acceptors.Kept.{
  twice, is_acceptor, append-Same, remove-Same, Same, IsKept, no_acceptors-IsKept,
  set_session-IsKept,
}
use software_bus.RequestReply.Acceptors.Calls.{
  begin_accept-IsKept, fail_accept-IsKept, begin_stop-IsKept,
}

module _ (captured : ℕ → Option (Text × ℕ)) where
  -- What a function of a call makes of the acceptors: of `accept_request`, whose `on_request` is a new
  -- object, and of `stop_accept_request`; of a request's wait, with its `on_reply`; of `connect`.
  pub data Step (a : Acceptors) : Acceptors → Type 0 where
    accepts :
        (rs : Text) (c n : ℕ)
        → captured n ≡ some (rs, c)
        → member n (get (derived_request_subject rs) a.session.table) ≡ false
        → Step a (begin_accept rs c n a).1
    accept_fails :
        (rs : Text) (c n : ℕ) (e : Error)
        → captured n ≡ some (rs, c)
        → Step a (fail_accept rs c n e a).1
    stops : (rs : Text) (c : ℕ) → Step a (begin_stop rs c a).1
    waits :
        (subject : Text) (m : ℕ)
        → captured m ≡ none
        → Step a (set_session (begin_subscribe subject m a.session).1 a)
    wait_fails :
        (subject : Text) (m : ℕ)
        → captured m ≡ none
        → Step a (set_session (fail_subscribe subject m a.session) a)
    wait_ends :
        (subject : Text) (m : ℕ)
        → captured m ≡ none
        → Step a (set_session (begin_unsubscribe subject m a.session).1 a)
    connects : a.session.connected ≡ false → Step a (set_session (connected_again a.session) a)
    resends : Step a (set_session (resend a.session.resending a.session).1 a)
    disconnects : Step a (set_session (disconnected a.session) a)
    abandons : Step a (set_session (abandon a.session) a)

  pub data Reach : Acceptors → Type 0 where
    new : Reach no_acceptors
    next : {a a' : Acceptors} → Reach a → Step a a' → Reach a'

  other_callback :
      (m n : ℕ) (rs : Text) (c : ℕ) → captured m ≡ none → captured n ≡ some (rs, c) → m ≢ n
  other_callback m n rs c e f z = ground (arith, e, f, ap captured z)

  unchanged_table :
      (s s' : Session)
      → s'.table ≡ s.table
      → (k rs : Text) (c n : ℕ) → captured n ≡ some (rs, c)
      → Same n (get k s.table) (get k s'.table)
  unchanged_table s s' e k rs c n f =
      (ap (λ t. member n (get k t)) e, ap (λ t. twice n (get k t)) e)

  waits-Same :
      (subject : Text) (m : ℕ) (s : Session)
      → captured m ≡ none
      → IsTold s
      → (k rs : Text) (c n : ℕ) → captured n ≡ some (rs, c)
      → Same n (get k s.table) (get k (begin_subscribe subject m s).1.table)
  unfolding Begun
  waits-Same subject m s e h k rs c n f = elim (get-begin_subscribe subject m s h.form) [
    | inl (o, gets) ↦ rw (gets k) (append-Same subject k m n s.table (other_callback m n rs c e f))
    | inr (x, o, gets) ↦ rw (gets k) (refl, refl)
  ]

  -- A step of the session below.
  below :
      {s : Session} (a : Acceptors)
      → Sessions.Step a.session s
      → ((k rs : Text) (c n : ℕ)
          → captured n ≡ some (rs, c)
          → Same n (get k a.session.table) (get k s.table))
      → IsKept captured a
      → IsKept captured (set_session s a)
  below {s} a st same h = set_session-IsKept captured s a (Sessions.Step-IsTold st h.told) same h

  Step-IsKept : {a a' : Acceptors} → Step a a' → IsKept captured a → IsKept captured a'
  Step-IsKept {a} (accepts rs c n e f) h = begin_accept-IsKept captured rs c a n e f h
  Step-IsKept {a} (accept_fails rs c n x e) h = fail_accept-IsKept captured rs c a n x e h
  Step-IsKept {a} (stops rs c) h = begin_stop-IsKept captured rs c a h
  Step-IsKept {a} (waits x m e) h =
      below a (Sessions.subscribes x m) (waits-Same x m a.session e h.told) h
  Step-IsKept {a} (wait_fails x m e) h =
      below a (Sessions.fails x m)
        (λ k rs c n f.
          rw (get-fail_subscribe x k m a.session h.told.form)
            (remove-Same x k m n a.session.table (other_callback m n rs c e f)))
        h
  Step-IsKept {a} (wait_ends x m e) h =
      below a (Sessions.unsubscribes x m)
        (λ k rs c n f.
          rw (get-begin_unsubscribe x k m a.session h.told.form)
            (remove-Same x k m n a.session.table (other_callback m n rs c e f)))
        h
  Step-IsKept {a} (connects e) h =
      below a (Sessions.connects e)
        (unchanged_table a.session (connected_again a.session) (unfold connected_again in refl)) h
  Step-IsKept {a} resends h =
      below a Sessions.resends
        (unchanged_table a.session (resend a.session.resending a.session).1
          (table-resend a.session.resending a.session))
        h
  Step-IsKept {a} disconnects h =
      below a Sessions.disconnects
        (unchanged_table a.session (disconnected a.session) (unfold disconnected in refl)) h
  Step-IsKept {a} abandons h =
      below a Sessions.abandons
        (unchanged_table a.session (abandon a.session) (unfold abandon in refl)) h

  Reach-IsKept : {a : Acceptors} → Reach a → IsKept captured a
  Reach-IsKept new = no_acceptors-IsKept captured
  Reach-IsKept (next r st) = Step-IsKept st (Reach-IsKept r)

member-filled : (n : ℕ) (cs : List ℕ) → member n cs ≡ true → is_empty cs ≡ false
unfolding member
member-filled n [] h = absurd (ground (arith, h))
member-filled n (x ∷ cs) h = refl

-- However the calls of a client overlap, for each `on_request`, made with a request subject and a
-- callback: while it is the acceptor of these, it is registered for the derived request subject, once,
-- and the node is told of that subject as far as there is a connection and no `connect` was cancelled
-- or has it still to send; and while it is not their acceptor, it is not registered, unless a failed
-- accept_request has deleted the entry that another call had made.
pub Reach-accepting :
    (captured : ℕ → Option (Text × ℕ)) {a : Acceptors}
    → Reach captured a
    → (rs : Text) (c n : ℕ) → captured n ≡ some (rs, c)
    → let subject = derived_request_subject rs in
      let cs = get subject a.session.table in
      let accepting = is_acceptor n (a.acceptors rs c) in
      ((not accepting || member n cs) ≡ true)
      × (member n (remove n cs) ≡ false)
      × ((not accepting
            || not a.session.connected
            || a.session.abandoned
            || known subject a.session
            || any (λ s'. text_eq s' subject) a.session.resending)
          ≡ true)
      × ((a.crossed || not (member n cs) || accepting) ≡ true)
Reach-accepting captured {a} r rs c n e =
    let h = (Reach-IsKept captured r).at rs c n in
    let subject = derived_request_subject rs in
    (
      h.accepting,
      h.once e,
      ground (
        arith,
        h.accepting,
        member-filled n (get subject a.session.table),
        told_lem a.session (Reach-IsKept captured r).told subject,
      ),
      h.stopped e,
    )
