-- ===== src/PubSub/Node/Unsubscribe.antt =====
-- Whom `PubSubNode._unsubscribe` (software_bus/pubsub.py) tells that a subject is no longer wanted.
use software_bus.Prelude.{
  ℕ, ◌≡◌, refl, ap, ◌∙◌, arith, not, ◌&&◌, ◌||◌, Bool, true, false, Option, none, some, List, [],
  ◌∷◌, ◌++◌, member, select, any, distinct, bool_ext, ◌==◌, ==_iff, ==_refl, Bool-cases, inl, inr,
  member-append, member-select,
}
use software_bus.Text.{Text, text_eq_refl}
use software_bus.BaseLayer.Node.{Node, peers_except, all_connections}
use software_bus.PubSub.Subscriptions.{Table, get, discard_subscriber}
use software_bus.PubSub.Subscriptions.Laws.{IsTable, get-discard_subscriber}
use software_bus.PubSub.Node.Sound.{Tables, discard-Tables}
use software_bus.PubSub.State.{PubSub, subscribers, active, subscriptions, set_subscriptions}
use software_bus.PubSub.Node.{unsubscribe_targets}

-- A neighbour is asked for a subject on behalf of the subscribers other than itself.
abbrev pub wanted_from : List ℕ → ℕ → Bool
wanted_from subscribers d = any (λ c. not (c == d)) subscribers

abbrev pub told : Option (List ℕ) → ℕ → Bool
told none d = false
told (some targets) d = member d targets

one_other :
    (c d : ℕ) (cs : List ℕ)
    → distinct (c ∷ d ∷ cs) ≡ true
    → (e : ℕ) → (not (c == e) || not (d == e)) ≡ true
unfolding distinct member
one_other c d cs h e = ground (arith, ==_iff c e, ==_iff d e, ==_iff d c)

wanted_some :
    (cs : List ℕ) (d : ℕ)
    → wanted_from cs d ≡ true
    → (e : ℕ) × (member e cs ≡ true) × ((e == d) ≡ false)
unfolding member
wanted_some [] d h = absurd (ground arith)
wanted_some (c ∷ cs) d h = elim (Bool-cases (c == d)) [
  | inr a ↦ (c, rw (==_refl c), a)
  | inl a ↦ let (e, m, ne) = wanted_some cs d (ground arith) in (e, ground arith, ne)
]

some_wanted :
    (cs : List ℕ) (d e : ℕ) → member e cs ≡ true → (e == d) ≡ false → wanted_from cs d ≡ true
unfolding member
some_wanted [] d e m h = m
some_wanted (c ∷ cs) d e m h =
    ground (arith, some_wanted cs d e, ==_iff c e, ==_iff c d, ==_iff e d)

wanted_from-with :
    (before after : List ℕ) (c d : ℕ)
    → ((e : ℕ) → member e before ≡ (member e after || c == e))
    → wanted_from before d ≡ (wanted_from after d || not (c == d))
wanted_from-with before after c d h =
    bool_ext (wanted_from before d) (wanted_from after d || not (c == d))
      (λ w.
        let (e, m, ne) = wanted_some before d w in
        ground (arith, h e, some_wanted after d e, ==_iff c e, ==_iff c d, ==_iff e d))
      (λ w. elim (Bool-cases (c == d)) [
        | inr a ↦ some_wanted before d c (h c ∙ rw (==_refl c) (ground arith)) a
        | inl a ↦
            let (e, m, ne) = wanted_some after d (ground arith) in
            some_wanted before d e (h e ∙ rw m) ne
      ])

told-wanted_from :
    (before after others : List ℕ) (c d : ℕ)
    → ((e : ℕ) → member e before ≡ (member e after || c == e))
    → member c after ≡ false
    → distinct after ≡ true
    → member d others ≡ not (d == c)
    → told (unsubscribe_targets after others) d
      ≡ (wanted_from before d && not (wanted_from after d))
told-wanted_from before [] others c d h k o m =
    ground (arith, wanted_from-with before [] c d h, ==_iff c d, ==_iff d c)
told-wanted_from before (a ∷ []) others c d h k o m =
    unfold member in
    ground (
      arith,
      wanted_from-with before (a ∷ []) c d h,
      ==_iff c d,
      ==_iff d c,
      ==_iff a d,
      ==_iff a c,
    )
told-wanted_from before (a ∷ b ∷ after) others c d h k o m = ground (arith, one_other a b after o d)

distinct-disjoint :
    (xs ys : List ℕ)
    → distinct xs ≡ true
    → distinct ys ≡ true
    → ((e : ℕ) → (member e xs && member e ys) ≡ false)
    → distinct (xs ++ ys) ≡ true
unfolding distinct member
distinct-disjoint [] ys a b h = b
distinct-disjoint (x ∷ xs) ys a b h = ground (
  arith,
  distinct-disjoint xs ys (ground arith) b (λ e. ground (arith, h e)),
  member-append x xs ys,
  h x,
  ==_refl x,
)

get-distinct : (s : Text) (t : Table) → IsTable t → distinct (get s t) ≡ true
unfolding get
get-distinct s [] h = unfold distinct in refl
get-distinct s ((k, cs) ∷ t) (fresh, some_left, once, rest) = ground (arith, get-distinct s t rest)

-- No connection subscribes to the subject from both sides.
abbrev pub Apart : Text → PubSub → Type 0
Apart subject u =
    (e : ℕ)
    → (member e (get subject u.downstream_subscriptions)
        && member e (get subject u.upstream_subscriptions))
      ≡ false

-- The node's subscriptions once `c` has left `subject`.
abbrev pub left : Bool → Text → ℕ → PubSub → PubSub
left up subject c u = set_subscriptions up (discard_subscriber subject c (subscriptions up u)).1 u

get-left :
    (subject : Text) (c e : ℕ) (t : Table)
    → IsTable t
    → member e (get subject (discard_subscriber subject c t).1)
      ≡ (member e (get subject t) && not (c == e))
get-left subject c e t h =
    (get-discard_subscriber subject subject c e t h).1
    ∙ ap (λ b. member e (get subject t) && not (b && c == e)) (text_eq_refl subject)

subscribers-left :
    (up : Bool) (subject : Text) (c : ℕ) (u : PubSub)
    → Tables u
    → member c (get subject (subscriptions up u)) ≡ true
    → Apart subject u
    → (e : ℕ)
    → member e (subscribers subject (left up subject c u))
      ≡ (member e (subscribers subject u) && not (c == e))
subscribers-left true subject c u h there apart e =
    let down = get subject u.downstream_subscriptions in
    ground (
      arith,
      get-left subject c e u.upstream_subscriptions h.1,
      apart c,
      ==_iff c e,
      ap (λ x. member x down),
      member-append e down (get subject u.upstream_subscriptions),
      member-append e down (get subject (left true subject c u).upstream_subscriptions),
    )
subscribers-left false subject c u h there apart e =
    let up = get subject u.upstream_subscriptions in
    ground (
      arith,
      get-left subject c e u.downstream_subscriptions h.0,
      apart c,
      ==_iff c e,
      ap (λ x. member x up),
      member-append e (get subject u.downstream_subscriptions) up,
      member-append e (get subject (left false subject c u).downstream_subscriptions) up,
    )

left-Apart :
    (up : Bool) (subject : Text) (c : ℕ) (u : PubSub)
    → Tables u
    → Apart subject u
    → Apart subject (left up subject c u)
left-Apart true subject c u h apart e =
    ground (arith, get-left subject c e u.upstream_subscriptions h.1, apart e)
left-Apart false subject c u h apart e =
    ground (arith, get-left subject c e u.downstream_subscriptions h.0, apart e)

subscribers-distinct :
    (subject : Text) (u : PubSub)
    → Tables u
    → Apart subject u
    → distinct (subscribers subject u) ≡ true
subscribers-distinct subject u h apart =
    distinct-disjoint (get subject u.downstream_subscriptions)
      (get subject u.upstream_subscriptions) (get-distinct subject u.downstream_subscriptions h.0)
      (get-distinct subject u.upstream_subscriptions h.1) apart

subscribes :
    (up : Bool) (subject : Text) (c : ℕ) (u : PubSub)
    → member c (get subject (subscriptions up u)) ≡ true
    → member c (subscribers subject u) ≡ true
subscribes true subject c u h = ground (
  arith,
  member-append c (get subject u.downstream_subscriptions) (get subject u.upstream_subscriptions),
)
subscribes false subject c u h = ground (
  arith,
  member-append c (get subject u.downstream_subscriptions) (get subject u.upstream_subscriptions),
)

pending-left :
    (up : Bool) (subject : Text) (c : ℕ) (u : PubSub) → (left up subject c u).pending ≡ u.pending
pending-left true subject c u = refl
pending-left false subject c u = refl

member-active :
    (n : Node) (u : PubSub) (c d : ℕ)
    → member d (all_connections n) ≡ true
    → member d u.pending ≡ false
    → member d (active u (peers_except c n)) ≡ not (d == c)
unfolding peers_except
member-active n u c d l p =
    member-select (λ x. not (member x u.pending)) d (select (λ x. not (x == c)) (all_connections n))
    ∙ ground (arith, member-select (λ x. not (x == c)) d (all_connections n))

-- When the subscriber `c` leaves a subject, each connection of the node that is not pending is told
-- exactly if the subject was wanted from it, by another subscriber than itself, and is no longer.
pub told-unsubscribe_targets :
    (up : Bool) (subject : Text) (c d : ℕ) (n : Node) (u : PubSub)
    → Tables u
    → Apart subject u
    → member c (get subject (subscriptions up u)) ≡ true
    → member d (all_connections n) ≡ true
    → member d u.pending ≡ false
    → told
        (unsubscribe_targets
          (subscribers subject (left up subject c u))
          (active (left up subject c u) (peers_except c n)))
        d
      ≡ (wanted_from (subscribers subject u) d
          && not (wanted_from (subscribers subject (left up subject c u)) d))
told-unsubscribe_targets up subject c d n u h apart there l p =
    let u' = left up subject c u in
    let gone = subscribers-left up subject c u h there apart in
    let was = subscribes up subject c u there in
    told-wanted_from (subscribers subject u) (subscribers subject u') (active u' (peers_except c n))
      c d (λ e. ground (arith, gone e, was, ==_iff c e, ap (λ x. member x (subscribers subject u))))
      (gone c ∙ rw (==_refl c) (ground arith))
      (subscribers-distinct subject u' (discard-Tables up subject c u h)
        (left-Apart up subject c u h apart))
      (member-active n u' c d l (ap (member d) (pending-left up subject c u) ∙ p))
