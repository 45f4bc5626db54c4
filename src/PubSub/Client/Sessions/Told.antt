-- ===== src/PubSub/Client/Sessions/Told.antt =====
-- What the node has been told by a `PubSubClient` (software_bus/pubsub.py) through each function of a
-- call.
use software_bus.Prelude.{
  ℕ, ◌≡◌, refl, arith, not, ◌&&◌, ◌||◌, Bool, true, false, if◌then◌else◌, List, [], ◌∷◌, ◌++◌, map,
  any, length, Result, ok, err, Error, Bool-cases, inl, inr,
}
use software_bus.Text.{Text, Bytes, text_eq}
use software_bus.BaseLayer.Framing.{check_payload_length}
use software_bus.PubSub.Codec.{
  Message, subscription, publish, hello, reachability_query, reachability_reply, encode_message,
}
use software_bus.PubSub.Subscriptions.{Table, get}
use software_bus.PubSub.Subscriptions.Laws.{has_key}
use software_bus.PubSub.Client.{remove_registration, unsubscribe}
use software_bus.PubSub.Client.Registry.{IsRegistry, remove_registration-IsRegistry}
use software_bus.PubSub.Client.Laws.{
  registered, known_after, registered-has_key, known_after-unsubscribe,
}
use software_bus.PubSub.Client.Sessions.{
  Session, new_session, raised, fail_subscribe, connected_again, disconnected, abandon,
}

-- A subscription to `k` is encoded, and its message fits in a payload.
abbrev pub fits : Result Bytes → Bool
fits (err e) = false
fits (ok wire_message) = elim (check_payload_length (length wire_message)) [
  | ok u ↦ true
  | err e ↦ false
]

unfoldable pub sendable : Text → Bool
sendable k = fits (encode_message (subscription k true))

-- What the messages to the connection say of `k`.
abbrev pub known : Text → Session → Bool
known k s = known_after k s.told false

-- While there is a connection and no `connect` was abandoned, the node knows of each subject that has
-- callbacks, or `connect` has it still to send; and where no call has raised, the node knows of no
-- other subject.
pub record At (k : Text) (s : Session) : Type 0 where
  pub sent : (not (registered k s.table) || sendable k) ≡ true
  pub told :
      (not s.connected
        || s.abandoned
        || not (registered k s.table)
        || known k s
        || any (λ s'. text_eq s' k) s.resending)
      ≡ true
  pub exact : (not s.connected || s.failed || not (known k s) || registered k s.table) ≡ true

pub record IsTold (s : Session) : Type 0 where
  pub form : IsRegistry s.table
  pub at : (k : Text) → At k s

pub told_lem :
    (s : Session)
    → IsTold s
    → (k : Text)
    → (not s.connected
        || s.abandoned
        || not (registered k s.table)
        || known k s
        || any (λ s'. text_eq s' k) s.resending)
      ≡ true
told_lem s h k = (h.at k).told

pub exact_lem :
    (s : Session)
    → IsTold s
    → (k : Text) → (not s.connected || s.failed || not (known k s) || registered k s.table) ≡ true
exact_lem s h k = (h.at k).exact

pub known_after-append :
    (k s : Text) (v : Bool) (ms : List Message) (b : Bool)
    → known_after k (ms ++ subscription s v ∷ []) b
      ≡ (if text_eq s k then v else known_after k ms b)
known_after-append k s v [] b = refl
known_after-append k s v (subscription x w ∷ ms) b =
    known_after-append k s v ms (if text_eq x k then w else b)
known_after-append k s v (publish x p ∷ ms) b = known_after-append k s v ms b
known_after-append k s v (hello i ∷ ms) b = known_after-append k s v ms b
known_after-append k s v (reachability_query i j ∷ ms) b = known_after-append k s v ms b
known_after-append k s v (reachability_reply i r ∷ ms) b = known_after-append k s v ms b

pub registered-remove :
    (s k : Text) (c : ℕ) (t : Table)
    → IsRegistry t
    → registered k (remove_registration s c t).1
      ≡ (if (remove_registration s c t).0 && text_eq s k then false else registered k t)
unfolding unsubscribe
registered-remove s k c t h = elim (Bool-cases (remove_registration s c t).0) [
  | inl f ↦ ground (arith, f, (known_after-unsubscribe s k c t h).1)
  | inr f ↦ ground (arith, f, (known_after-unsubscribe s k c t h).1)
]

any_key-has_key :
    (k : Text) (t : Table) → any (λ s'. text_eq s' k) (map (λ entry. entry.0) t) ≡ has_key k t
any_key-has_key k [] = refl
any_key-has_key k ((s, cs) ∷ t) = ground (arith, any_key-has_key k t)

pub new_session-IsTold : IsTold new_session
unfolding get
new_session-IsTold = record {
  form = tt;
  at = λ k. record { sent = refl; told = refl; exact = refl };
}

pub raised-IsTold : (e : Error) (s : Session) → IsTold s → IsTold (raised e s).1
raised-IsTold e s h = record {
  form = h.form;
  at = λ k. record { sent = (h.at k).sent; told = (h.at k).told; exact = ground (arith) };
}

-- A call that removes a registration and raises.
pub fail_subscribe-IsTold :
    (x : Text) (c : ℕ) (s : Session) → IsTold s → IsTold (fail_subscribe x c s)
unfolding fail_subscribe
fail_subscribe-IsTold x c s h = record {
  form = remove_registration-IsRegistry x c s.table h.form;
  at = λ k. record {
    sent = ground (arith, registered-remove x k c s.table h.form, (h.at k).sent);
    told = ground (arith, registered-remove x k c s.table h.form, (h.at k).told);
    exact = ground (arith);
  };
}

pub disconnected-IsTold : (s : Session) → IsTold s → IsTold (disconnected s)
unfolding disconnected
disconnected-IsTold s h = record {
  form = h.form;
  at = λ k. record { sent = (h.at k).sent; told = refl; exact = refl };
}

pub connected_again-IsTold : (s : Session) → IsTold s → IsTold (connected_again s)
unfolding connected_again
connected_again-IsTold s h = record {
  form = h.form;
  at = λ k. record {
    sent = (h.at k).sent;
    told = ground (arith, any_key-has_key k s.table, registered-has_key k s.table h.form);
    exact = refl;
  };
}

pub abandon-IsTold : (s : Session) → IsTold s → IsTold (abandon s)
unfolding abandon
abandon-IsTold s h = record {
  form = h.form;
  at = λ k. record { sent = (h.at k).sent; told = ground arith; exact = (h.at k).exact };
}
