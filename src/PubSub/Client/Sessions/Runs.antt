-- ===== src/PubSub/Client/Sessions/Runs.antt =====
-- The calls of a `PubSubClient` (software_bus/pubsub.py) in any order and overlapping, from its
-- construction.
use software_bus.Prelude.{ℕ, ◌≡◌, refl, not, ◌||◌, true, false, any}
use software_bus.Text.{Text, text_eq}
use software_bus.PubSub.Client.Laws.{registered}
use software_bus.PubSub.Client.Sessions.{
  Session, new_session, begin_subscribe, fail_subscribe, begin_unsubscribe, connected_again, resend,
  disconnected, abandon,
}
use software_bus.PubSub.Client.Sessions.Told.{
  known, IsTold, told_lem, exact_lem, new_session-IsTold, fail_subscribe-IsTold,
  disconnected-IsTold, connected_again-IsTold, abandon-IsTold,
}
use software_bus.PubSub.Client.Sessions.Sends.{
  begin_unsubscribe-IsTold, resend-IsTold, begin_subscribe-IsTold,
}

-- What one function of a call makes of a session.
pub data Step (s : Session) : Session → Type 0 where
  subscribes : (subject : Text) (c : ℕ) → Step s (begin_subscribe subject c s).1
  fails : (subject : Text) (c : ℕ) → Step s (fail_subscribe subject c s)
  unsubscribes : (subject : Text) (c : ℕ) → Step s (begin_unsubscribe subject c s).1
  connects : s.connected ≡ false → Step s (connected_again s)
  resends : Step s (resend s.resending s).1
  disconnects : Step s (disconnected s)
  abandons : Step s (abandon s)

pub data Reach : Session → Type 0 where
  new : Reach new_session
  next : {s s' : Session} → Reach s → Step s s' → Reach s'

pub Step-IsTold : {s s' : Session} → Step s s' → IsTold s → IsTold s'
Step-IsTold {s} (subscribes subject c) h = begin_subscribe-IsTold subject c s h
Step-IsTold {s} (fails subject c) h = fail_subscribe-IsTold subject c s h
Step-IsTold {s} (unsubscribes subject c) h = begin_unsubscribe-IsTold subject c s h
Step-IsTold {s} (connects e) h = connected_again-IsTold s h
Step-IsTold {s} resends h = resend-IsTold s.resending s refl h
Step-IsTold {s} disconnects h = disconnected-IsTold s h
Step-IsTold {s} abandons h = abandon-IsTold s h

Reach-IsTold : {s : Session} → Reach s → IsTold s
Reach-IsTold new = new_session-IsTold
Reach-IsTold (next r st) = Step-IsTold st (Reach-IsTold r)

-- However the calls of a client overlap: while it has a connection, and its `connect` has not been
-- cancelled since in the loop that sends the subjects again, the node there has been told of each
-- subject that the client has callbacks for, or that loop has the subject still to look at. And while
-- it has a connection and no call has raised since that was made, the node takes the client to be
-- subscribed to no other subject.
pub Reach-told :
    {s : Session}
    → Reach s
    → (k : Text)
    → ((not s.connected
          || s.abandoned
          || not (registered k s.table)
          || known k s
          || any (λ s'. text_eq s' k) s.resending)
        ≡ true)
      × ((not s.connected || s.failed || not (known k s) || registered k s.table) ≡ true)
Reach-told {s} r k = (told_lem s (Reach-IsTold r) k, exact_lem s (Reach-IsTold r) k)
