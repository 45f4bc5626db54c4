-- ===== src/PubSub/Client/Registry.antt =====
-- The form of the registrations of `PubSubClient` (software_bus/pubsub.py), and the callbacks that a
-- change leaves for each subject.
use software_bus.Prelude.{
  ℕ, ◌≡◌, refl, ap, arith, ◌||◌, false, if◌then◌else◌, List, [], ◌∷◌, ◌++◌, member, remove,
  Bool-cases, inl, inr,
}
use software_bus.Text.{Text, text_eq, text_eq_sound, text_eq_refl}
use software_bus.PubSub.Subscriptions.{Table, get, put_back}
use software_bus.PubSub.Subscriptions.Laws.{has_key, get-put_back}
use software_bus.PubSub.Client.{add_registration, drop_registration, is_empty, remove_registration}

-- Each subject stands once, with one callback at least.
abbrev pub IsRegistry : Table → Type 0
IsRegistry [] = Unit {0}
IsRegistry ((s, cs) ∷ t) = (has_key s t ≡ false) × (is_empty cs ≡ false) × IsRegistry t

pub get-add_registration :
    (s k : Text) (c : ℕ) (t : Table)
    → get k (add_registration s c t) ≡ (if text_eq s k then get k t ++ c ∷ [] else get k t)
unfolding get add_registration
get-add_registration s k c [] = ground arith
get-add_registration s k c ((x, cs) ∷ t) = ground (
  arith,
  get-add_registration s k c t,
  text_eq_sound x s,
  text_eq_sound x k,
  text_eq_sound s k,
  text_eq_refl s,
  ap (λ y. text_eq y k),
)

pub get-drop_registration :
    (s k : Text) (c : ℕ) (t : Table)
    → IsRegistry t
    → get k (drop_registration s c t) ≡ (if text_eq s k then remove c (get k t) else get k t)
unfolding get drop_registration
get-drop_registration s k c [] h = unfold remove in ground arith
get-drop_registration s k c ((x, cs) ∷ t) (fresh, filled, rest) = ground (
  arith,
  get-drop_registration s k c t rest,
  get-put_back x k (remove c cs) t fresh,
  text_eq_sound x s,
  text_eq_sound x k,
  text_eq_sound s k,
  text_eq_refl s,
  ap (λ y. text_eq y k),
)

has_key-add_registration :
    (s k : Text) (c : ℕ) (t : Table)
    → has_key k (add_registration s c t) ≡ (has_key k t || text_eq s k)
unfolding add_registration
has_key-add_registration s k c [] = ground arith
has_key-add_registration s k c ((x, cs) ∷ t) =
    ground (arith, has_key-add_registration s k c t, text_eq_sound x s, ap (λ y. text_eq y k))

pub add_registration-IsRegistry :
    (s : Text) (c : ℕ) (t : Table) → IsRegistry t → IsRegistry (add_registration s c t)
unfolding add_registration
add_registration-IsRegistry s c [] h = (refl, refl, tt)
add_registration-IsRegistry s c ((x, cs) ∷ t) (fresh, filled, rest) =
    elim (Bool-cases (text_eq x s)) [
      | inl e ↦ rw e (fresh, appended cs, rest)
      | inr e ↦ rw e (
        ground (
          arith,
          has_key-add_registration s x c t,
          text_eq_sound s x,
          text_eq_refl s,
          ap (λ y. text_eq y s),
        ),
        filled,
        add_registration-IsRegistry s c t rest,
      )
    ]
  where
    appended : (cs : List ℕ) → is_empty (cs ++ c ∷ []) ≡ false
    appended [] = refl
    appended (d ∷ cs) = refl

has_key-drop_registration :
    (s k : Text) (c : ℕ) (t : Table)
    → has_key k t ≡ false
    → has_key k (drop_registration s c t) ≡ false
unfolding drop_registration
has_key-drop_registration s k c [] h = refl
has_key-drop_registration s k c ((x, cs) ∷ t) h = elim (Bool-cases (text_eq x s)) [
  | inl e ↦ rw e (put_back_absent (remove c cs))
  | inr e ↦ rw e (ground (arith, has_key-drop_registration s k c t))
]
  where
    put_back_absent : (cs : List ℕ) → has_key k (put_back x cs t) ≡ false
    put_back_absent [] = ground arith
    put_back_absent (c ∷ cs) = h

pub drop_registration-IsRegistry :
    (s : Text) (c : ℕ) (t : Table) → IsRegistry t → IsRegistry (drop_registration s c t)
unfolding drop_registration
drop_registration-IsRegistry s c [] h = tt
drop_registration-IsRegistry s c ((x, cs) ∷ t) (fresh, filled, rest) =
    elim (Bool-cases (text_eq x s)) [
      | inl e ↦ rw e (left (remove c cs))
      | inr e ↦
          rw e (
            has_key-drop_registration s x c t fresh,
            filled,
            drop_registration-IsRegistry s c t rest,
          )
    ]
  where
    left : (cs : List ℕ) → IsRegistry (put_back x cs t)
    left [] = rest
    left (d ∷ cs) = (fresh, refl, rest)

pub remove_registration-IsRegistry :
    (s : Text) (c : ℕ) (t : Table) → IsRegistry t → IsRegistry (remove_registration s c t).1
unfolding remove_registration
remove_registration-IsRegistry s c t h = elim (Bool-cases (member c (get s t))) [
  | inl e ↦ rw e (drop_registration-IsRegistry s c t h)
  | inr e ↦ rw e h
]
