-- ===== src/PubSub/Client/Tests.antt =====
-- The theorems about `PubSubClient` (software_bus/pubsub.py) at a client with one subject.
use software_bus.Prelude.{◌≡◌, refl, ok, [], ◌∷◌, remove, member}
use software_bus.Text.{codes, text_eq}
use software_bus.PubSub.Subscriptions.{Table, get}
use software_bus.PubSub.Client.{unsubscribe, remove_registration, drop_registration}
use software_bus.PubSub.Client.Registry.{IsRegistry}

-- The callback 5 is registered twice.
abbrev one_subject : Table
one_subject = (codes "a", 5 ∷ 5 ∷ []) ∷ []

one_subject-IsRegistry : IsRegistry one_subject
one_subject-IsRegistry = (refl, refl, tt)

unsubscribe_runs :
    (unsubscribe (codes "a") 5 (ok tt) one_subject).1 ≡ ([], (codes "a", 5 ∷ []) ∷ [])
unfolding unsubscribe remove_registration drop_registration get text_eq remove member
unsubscribe_runs = refl
