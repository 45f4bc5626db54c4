-- ===== src/PubSub/Client/Laws.antt =====
-- What the node has been told of the subjects that a `PubSubClient` (software_bus/pubsub.py) has
-- callbacks for.
use software_bus.Prelude.{
  ℕ, ==_iff, ◌≡◌, refl, sym, ap, ◌∙◌, arith, not, ◌||◌, Bool, true, false, if◌then◌else◌, List, [],
  ◌∷◌, ◌++◌, member, remove, Result, ok, err, Bool-cases, inl, inr, Result-cases,
}
use software_bus.Text.{Text, text_eq, text_eq_sound, text_eq_refl}
use software_bus.PubSub.Codec.{Message, subscription, encode_message}
use software_bus.PubSub.Subscriptions.{Table, get}
use software_bus.PubSub.Subscriptions.Laws.{has_key}
use software_bus.PubSub.Client.{
  add_registration, is_empty, remove_registration, first_told, subscribe, unsubscribe, resubscribe,
}
use software_bus.PubSub.Client.Registry.{
  IsRegistry, get-add_registration, get-drop_registration, add_registration-IsRegistry,
  drop_registration-IsRegistry, remove_registration-IsRegistry,
}

abbrev pub registered : Text → Table → Bool
registered k t = not (is_empty (get k t))

-- What the node knows of the client's subscription to `k`, after the messages.
abbrev pub known_after : Text → List Message → Bool → Bool
known_after k [] b = b
known_after k (subscription s v ∷ ms) b = known_after k ms (if text_eq s k then v else b)
known_after k (m ∷ ms) b = known_after k ms b

pub registered-add :
    (s k : Text) (c : ℕ) (t : Table)
    → registered k (add_registration s c t) ≡ (registered k t || text_eq s k)
registered-add s k c t =
    ap (λ cs. not (is_empty cs)) (get-add_registration s k c t) ∙ by_case (get k t)
  where
    by_case :
        (cs : List ℕ)
        → not (is_empty (if text_eq s k then cs ++ c ∷ [] else cs))
          ≡ (not (is_empty cs) || text_eq s k)
    by_case [] = ground arith
    by_case (d ∷ cs) = ground arith

-- A subject with one callback loses it.
pub registered-undone :
    (s k : Text) (c : ℕ) (t : Table)
    → IsRegistry t
    → is_empty (get s t) ≡ true
    → registered k (remove_registration s c (add_registration s c t)).1 ≡ registered k t
unfolding remove_registration
registered-undone s k c t h e = elim (Bool-cases (member c (get s (add_registration s c t)))) [
  | inl m ↦ rw m (
      ap (λ cs. not (is_empty cs))
        (get-drop_registration s k c (add_registration s c t) (add_registration-IsRegistry s c t h))
      ∙ ground (
        arith,
        e,
        get-add_registration s k c t,
        text_eq_sound s k,
        ap (λ x. get x t),
        emptied (get s t) e,
      ))
  | inr m ↦ absurd (
      ground
        (arith, m, added (get s t) e, ap (member c) (get-add_registration s s c t), text_eq_refl s))
]
  where
    emptied : (cs : List ℕ) → is_empty cs ≡ true → is_empty (remove c (cs ++ c ∷ [])) ≡ true
    emptied [] e = unfold remove in ground (arith, ==_iff c c)
    emptied (d ∷ cs) e = ground arith

    added : (cs : List ℕ) → is_empty cs ≡ true → member c (cs ++ c ∷ []) ≡ true
    added [] e = unfold member in ground (arith, ==_iff c c)
    added (d ∷ cs) e = ground arith

-- Whatever the sending of it comes to, a subscribe keeps the registrations in form, and what the
-- node knows of each subject stays whether there are callbacks for it.
pub known_after-subscribe :
    (s k : Text) (c : ℕ) (sent : Result (Unit {0})) (t : Table)
    → IsRegistry t
    → IsRegistry (subscribe s c sent t).1.1
      × (known_after k (subscribe s c sent t).1.0 (registered k t)
          ≡ registered k (subscribe s c sent t).1.1)
unfolding subscribe
known_after-subscribe s k c sent t h = elim (Result-cases (encode_message (subscription s true))) [
  | inr (x, e) ↦ rw (e, subscribe) (h, refl)
  | inl (w, e) ↦ elim (Bool-cases (is_empty (get s t))) [
    | inr f ↦
        rw (e, subscribe)
          (rw f (
            add_registration-IsRegistry s c t h,
            ground (arith, f, registered-add s k c t, text_eq_sound s k, ap (λ x. get x t)),
          ))
    | inl f ↦ rw (e, subscribe) (rw f (first sent f))
  ]
]
  where
    first :
        (sent : Result (Unit {0}))
        → is_empty (get s t) ≡ true
        → IsRegistry (first_told s c sent (add_registration s c t)).1.1
          × (known_after k (first_told s c sent (add_registration s c t)).1.0 (registered k t)
              ≡ registered k (first_told s c sent (add_registration s c t)).1.1)
    first (ok u) f = (add_registration-IsRegistry s c t h, ground (arith, registered-add s k c t))
    first (err x) f = (
      remove_registration-IsRegistry s c (add_registration s c t)
          (add_registration-IsRegistry s c t h),
      sym (registered-undone s k c t h f),
    )

-- An unsubscribe whose message is sent does so too.
pub known_after-unsubscribe :
    (s k : Text) (c : ℕ) (t : Table)
    → IsRegistry t
    → IsRegistry (unsubscribe s c (ok tt) t).1.1
      × (known_after k (unsubscribe s c (ok tt) t).1.0 (registered k t)
          ≡ registered k (unsubscribe s c (ok tt) t).1.1)
unfolding unsubscribe remove_registration
known_after-unsubscribe s k c t h = elim (Bool-cases (member c (get s t))) [
  | inr m ↦ rw m (h, refl)
  | inl m ↦
      let form = drop_registration-IsRegistry s c t h in
      let kept = ap (λ cs. not (is_empty cs)) (get-drop_registration s k c t h) in
      elim (Bool-cases (is_empty (remove c (get s t)))) [
        | inl f ↦ rw m (
            rw f (
              form,
              ground (arith, kept, f, text_eq_sound s k, ap (λ x. is_empty (remove c (get x t)))),
            ))
        | inr f ↦ rw m (
            rw f (
              form,
              ground (
                arith,
                kept,
                f,
                text_eq_sound s k,
                ap (λ x. is_empty (remove c (get x t))),
                filled (get s t) f,
                ap (λ x. is_empty (get x t)),
              ),
            ))
      ]
]
  where
    filled : (cs : List ℕ) → is_empty (remove c cs) ≡ false → is_empty cs ≡ false
    filled [] f = unfold remove in f
    filled (d ∷ cs) f = refl

known_after-resubscribed :
    (k : Text) (t : Table) (b : Bool) → known_after k (resubscribe t) b ≡ (b || has_key k t)
unfolding resubscribe
known_after-resubscribed k [] b = ground arith
known_after-resubscribed k ((s, cs) ∷ t) b =
    known_after-resubscribed k t (if text_eq s k then true else b) ∙ ground arith

pub registered-has_key : (k : Text) (t : Table) → IsRegistry t → has_key k t ≡ registered k t
unfolding get
registered-has_key k [] h = refl
registered-has_key k ((s, cs) ∷ t) (fresh, filled, rest) =
    ground (arith, registered-has_key k t rest)

-- After a connect the new node knows the client to be subscribed to exactly the subjects that have
-- callbacks.
pub known_after-resubscribe :
    (k : Text) (t : Table) → IsRegistry t → known_after k (resubscribe t) false ≡ registered k t
known_after-resubscribe k t h = known_after-resubscribed k t false ∙ registered-has_key k t h
