-- ===== src/PubSub/Node/Publish.antt =====
-- Where `PubSubNode` (software_bus/pubsub.py) sends a publish.
use software_bus.Prelude.{
  ℕ, ◌≡◌, ◌↔◌, ap, ◌∙◌, arith, not, ◌&&◌, ◌||◌, true, false, List, ◌++◌, member, select, ◌==◌,
  Bool-cases, inl, inr, member-append, member-select,
}
use software_bus.Text.{Text}
use software_bus.SubjectMatcher.{match}
use software_bus.PubSub.Subscriptions.{get, matching_connections}
use software_bus.PubSub.Subscriptions.Matching.{member-matching_connections}
use software_bus.PubSub.State.{PubSub, subscribers}
use software_bus.PubSub.Node.{publish_targets}
use software_bus.PubSub.Node.Sound.{Tables}

-- A publish to `subject` is sent to a connection exactly if it is not the one that the publish came
-- from, and it subscribes, on either side, to a subject that `subject` matches.
pub member-publish_targets :
    (source : ℕ) (subject : Text) (d : ℕ) (u : PubSub)
    → Tables u
    → (member d (publish_targets source subject u) ≡ true) ↔ (
        ((d == source) ≡ false)
        × ((k : Text) × (match subject k ≡ true) × (member d (subscribers k u) ≡ true)))
unfolding publish_targets
member-publish_targets source subject d u (hd, hu) = (
  λ e. (
    ground (arith, sent, e),
    elim (Bool-cases (member d down)) [
      | inl a ↦
          let (k, m, f) =
            (member-matching_connections subject d u.downstream_subscriptions hd).1.0 a in
          (k, m, listed k ∙ rw f)
      | inr a ↦
          let (k, m, f) =
            (member-matching_connections subject d u.upstream_subscriptions hu).1.0
              (ground (arith, sent, e)) in
          (k, m, listed k ∙ ground (arith, f))
    ],
  ),
  λ (ne, (k, m, f)). sent ∙ elim (Bool-cases (member d (get k u.downstream_subscriptions))) [
    | inl a ↦
        let b =
          (member-matching_connections subject d u.downstream_subscriptions hd).1.1 (k, m, a) in
        ground arith
    | inr a ↦
        let b =
          (member-matching_connections subject d u.upstream_subscriptions hu).1.1
            (k, m, ground (arith, listed k)) in
        ground arith
  ],
)
  where
    down : List ℕ
    down = matching_connections subject u.downstream_subscriptions

    up : List ℕ
    up = matching_connections subject u.upstream_subscriptions

    sent :
        member d (select (λ c. not (c == source)) (down ++ up))
        ≡ ((member d down || member d up) && not (d == source))
    sent =
        member-select (λ c. not (c == source)) d (down ++ up)
        ∙ ap (λ b. b && not (d == source)) (member-append d down up)

    listed :
        (k : Text)
        → member d (subscribers k u) ≡ (
            member d (get k u.downstream_subscriptions)
            || member d (get k u.upstream_subscriptions))
    listed k = member-append d (get k u.downstream_subscriptions) (get k u.upstream_subscriptions)
