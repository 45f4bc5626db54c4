-- ===== src/PubSub/Subscriptions/Tests.antt =====
-- The theorems about the subscription tables (software_bus/pubsub.py) at a concrete table.
use mathlib.Core.List.{zip}
use software_bus.Prelude.{
  true, not, ◌&&◌, ◌||◌, ◌≡◌, ◌↔◌, refl, arith, [], ◌∷◌, member, distinct, ◌==◌,
}
use software_bus.Text.{Text, codes, text_eq}
use software_bus.Text.Split.{split}
use software_bus.SubjectMatcher.{match}
use software_bus.PubSub.Subscriptions.{
  Table, get, add_subscriber, discard_subscriber, update_keys, matching_loop, matching_connections,
}
use software_bus.PubSub.Subscriptions.Laws.{IsTable, get-subscriber}
use software_bus.PubSub.Subscriptions.Matching.{member-matching_connections}

abbrev two_subjects : Table
two_subjects = (codes "a.b", 1 ∷ 2 ∷ []) ∷ (codes "a.*", 2 ∷ 3 ∷ []) ∷ []

two_subjects-IsTable : IsTable two_subjects
unfolding distinct member text_eq
two_subjects-IsTable = (refl, (λ e. ground arith), refl, (refl, (λ e. ground arith), refl, tt))

matching_connections_runs : matching_connections (codes "a.b") two_subjects ≡ 1 ∷ 2 ∷ 3 ∷ []
unfolding matching_connections matching_loop update_keys match split text_eq member zip
matching_connections_runs = refl

get-subscriber_example :
    (member 2 (get (codes "a.b") (add_subscriber (codes "a.b") 1 two_subjects)) ≡ (
      member 2 (get (codes "a.b") two_subjects) || (text_eq (codes "a.b") (codes "a.b") && 1 == 2)))
    × ((discard_subscriber (codes "a.b") 1 two_subjects).0
        ≡ member 1 (get (codes "a.b") two_subjects))
    × (member 2 (get (codes "a.b") (discard_subscriber (codes "a.b") 1 two_subjects).1) ≡ (
        member 2 (get (codes "a.b") two_subjects)
        && not (text_eq (codes "a.b") (codes "a.b") && 1 == 2)))
    × IsTable (add_subscriber (codes "a.b") 1 two_subjects)
    × IsTable (discard_subscriber (codes "a.b") 1 two_subjects).1
get-subscriber_example =
    get-subscriber (codes "a.b") (codes "a.b") 1 2 two_subjects two_subjects-IsTable

member-matching_connections_example :
    (distinct (matching_connections (codes "a.b") two_subjects) ≡ true)
    × ((member 3 (matching_connections (codes "a.b") two_subjects) ≡ true)
        ↔ ((k : Text) × (match (codes "a.b") k ≡ true) × (member 3 (get k two_subjects) ≡ true)))
member-matching_connections_example =
    member-matching_connections (codes "a.b") 3 two_subjects two_subjects-IsTable
