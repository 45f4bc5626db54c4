-- ===== src/PubSub/Client.antt =====
-- The registrations of `PubSubClient` (software_bus/pubsub.py): its callbacks, as numbers, per
-- subject, and what it does with them. `sent` is what `BaseLayerClient.send` returns or raises, and
-- another call runs before or after a call, not during its `send`.
pub mod Registry
pub mod Laws
pub mod Sessions
pub mod Tests
use software_bus.Prelude.{
  ℕ, ◌==◌, not, Bool, true, false, if◌then◌else◌, List, [], ◌∷◌, ◌++◌, map, length, member, remove,
  Result, ok, err, Error, ◌>>=◌, ◌>>◌,
}
use software_bus.Text.{Text, Bytes, text_eq}
use software_bus.SubjectMatcher.{match}
use software_bus.PubSub.Codec.{
  Message, subscription, publish, encode_message, decode_message, check_publish_subject,
  check_publish_length,
}
use software_bus.PubSub.Subscriptions.{Table, get, put_back}

-- `callbacks.append(callback)` under `setdefault(subject, [])`.
unfoldable pub add_registration : Text → ℕ → Table → Table
add_registration subject c [] = (subject, c ∷ []) ∷ []
add_registration subject c ((s, cs) ∷ t) =
    let rest = add_registration subject c t in
    if text_eq s subject then (s, cs ++ c ∷ []) ∷ t else (s, cs) ∷ rest

-- The first registration of `c` goes, and the subject with its last.
unfoldable pub drop_registration : Text → ℕ → Table → Table
drop_registration subject c [] = []
drop_registration subject c ((s, cs) ∷ t) =
    let rest = drop_registration subject c t in
    if text_eq s subject then put_back s (remove c cs) t else (s, cs) ∷ rest

abbrev pub is_empty : List ℕ → Bool
is_empty [] = true
is_empty (c ∷ cs) = false

-- `_remove_registration`: whether it was the subject's last callback, and the registrations.
unfoldable pub remove_registration : Text → ℕ → Table → Bool × Table
remove_registration subject c t =
    let cs = get subject t in
    if member c cs then (is_empty (remove c cs), drop_registration subject c t) else (false, t)

-- A call's result, the messages that it sends, and the registrations after it.
abbrev pub Outcome : Type 0
Outcome = Result (Unit {0}) × (List Message × Table)

abbrev pub first_told : Text → ℕ → Result (Unit {0}) → Table → Outcome
first_told subject c (ok u) t = (ok tt, (subscription subject true ∷ [], t))
first_told subject c (err e) t = (err e, ([], (remove_registration subject c t).1))

unfoldable pub subscribe : Text → ℕ → Result (Unit {0}) → Table → Outcome
subscribe subject c sent t = elim (encode_message (subscription subject true)) [
  | err e ↦ (err e, ([], t))
  | ok wire_message ↦
      if is_empty (get subject t)
      then first_told subject c sent (add_registration subject c t)
      else (ok tt, ([], add_registration subject c t))
]

abbrev pub last_told : Text → Result (Unit {0}) → Table → Outcome
last_told subject (ok u) t = (ok tt, (subscription subject false ∷ [], t))
last_told subject (err e) t = (err e, ([], t))

unfoldable pub unsubscribe : Text → ℕ → Result (Unit {0}) → Table → Outcome
unsubscribe subject c sent t =
    let (was_last, t') = remove_registration subject c t in
    if was_last then last_told subject sent t' else (ok tt, ([], t'))

-- `_deliver`: the callbacks that are called, in order, each with the subject it is registered for.
unfoldable pub deliver : Text → Table → List (Text × ℕ)
deliver subject [] = []
deliver subject ((s, cs) ∷ t) =
    let rest = deliver subject t in if match subject s then map (λ c. (s, c)) cs ++ rest else rest

-- `publish`: an error, or the callbacks that are called.
unfoldable pub publish_to : Text → Bytes → Result (Unit {0}) → Table → Result (List (Text × ℕ))
publish_to subject payload sent t = do
  check_publish_subject subject
  check_publish_length subject (length payload)
  wire_message ← encode_message (publish subject payload)
  sent
  ok (deliver subject t)

abbrev pub deliver_message : Message → Table → List (Text × ℕ)
deliver_message (publish subject payload) t = deliver subject t
deliver_message m t = []

-- `_on_receive`
unfoldable pub receive_at_client : Bytes → Table → List (Text × ℕ)
receive_at_client bytes t = elim (decode_message bytes) [ ok m ↦ deliver_message m t | err e ↦ [] ]

-- What `connect` sends, when each send succeeds.
unfoldable pub resubscribe : Table → List Message
resubscribe t = map (λ entry. subscription entry.0 true) t
