-- ===== src/PubSub/Client/Sessions/Tests.antt =====
-- Runs of a `PubSubClient` (software_bus/pubsub.py): a second callback is registered while the first
-- one's subscribe waits, and that subscribe then fails.
use software_bus.Prelude.{◌≡◌, refl, not, ◌||◌, true, [], ◌∷◌, any, remove, member}
use software_bus.Text.{codes, text_eq}
use software_bus.BaseLayer.Framing.{check_payload_length}
use software_bus.PubSub.Codec.{subscription, encode_message, encode_subject}
use software_bus.Text.Utf8.{encode}
use software_bus.Text.BigEndian.{to_bytes}
use software_bus.PubSub.Subscriptions.{get}
use software_bus.PubSub.Client.{add_registration, remove_registration, drop_registration}
use software_bus.PubSub.Client.Laws.{registered}
use software_bus.PubSub.Client.Sessions.{
  Session, new_session, begin_subscribe, fail_subscribe, connected_again, abandon, write,
  first_written,
}
use software_bus.PubSub.Client.Sessions.Told.{known}
use software_bus.PubSub.Client.Sessions.Runs.{new, next, subscribes, fails, connects, Reach-told}

abbrev two_callbacks : Session
two_callbacks =
    (begin_subscribe (codes "a") 6
      (begin_subscribe (codes "a") 5 (connected_again new_session)).1).1

abbrev one_failed : Session
one_failed = fail_subscribe (codes "a") 5 two_callbacks

one_failed_runs :
    (one_failed.table ≡ (codes "a", 6 ∷ []) ∷ [])
    × (one_failed.told ≡ subscription (codes "a") true ∷ [])
unfolding begin_subscribe fail_subscribe connected_again write first_written add_registration
    remove_registration drop_registration get text_eq remove member encode_message
    check_payload_length encode_subject encode to_bytes
one_failed_runs = (refl, refl)

-- A `connect` that is cancelled before its first send leaves the node untold, and a further callback
-- does not tell it.
abbrev left_untold : Session
left_untold = (begin_subscribe (codes "a") 7 (abandon (connected_again one_failed))).1

left_untold_runs :
    (left_untold.connected ≡ true)
    × (registered (codes "a") left_untold.table ≡ true)
    × (left_untold.told ≡ [])
unfolding begin_subscribe fail_subscribe connected_again abandon write first_written
    add_registration remove_registration drop_registration get text_eq remove member encode_message
    check_payload_length encode_subject encode to_bytes
left_untold_runs = (refl, refl, refl)

Reach-told_example :
    ((not one_failed.connected
        || one_failed.abandoned
        || not (registered (codes "a") one_failed.table)
        || known (codes "a") one_failed
        || any (λ s'. text_eq s' (codes "a")) one_failed.resending)
      ≡ true)
    × ((not one_failed.connected
          || one_failed.failed
          || not (known (codes "a") one_failed)
          || registered (codes "a") one_failed.table)
        ≡ true)
unfolding connected_again
Reach-told_example =
    Reach-told
      (next
        (next (next (next new (connects refl)) (subscribes (codes "a") 5))
          (subscribes (codes "a") 6))
        (fails (codes "a") 5))
      (codes "a")
