-- ===== src/PubSub/Subscriptions/Laws.antt =====
-- What the subscription tables of `PubSubNode` (software_bus/pubsub.py) hold after each change.
use software_bus.Prelude.{
  ℕ, ◌≡◌, ◌≢◌, refl, sym, ap, ◌∙◌, arith, not, ◌&&◌, ◌||◌, Bool, true, false, if◌then◌else◌, List,
  [], ◌∷◌, ◌++◌, member, remove, distinct, member-append, member-remove_ne, member-remove_self,
  distinct-remove, ◌==◌, ==_iff, Bool-cases, inl, inr,
}
use software_bus.Text.{Text, text_eq, text_eq_sound, text_eq_refl}
use software_bus.PubSub.Subscriptions.{
  Table, get, append_new, add_subscriber, put_back, remove_subscriber, discard_subscriber,
}

abbrev pub has_key : Text → Table → Bool
has_key s [] = false
has_key s ((s', cs) ∷ t) = text_eq s' s || has_key s t

-- Each subject once, with one connection at least and no connection twice.
abbrev pub IsTable : Table → Type 0
IsTable [] = Unit {0}
IsTable ((s, cs) ∷ t) = (has_key s t ≡ false) × (cs ≢ []) × (distinct cs ≡ true) × IsTable t

pub member-append_new :
    (c d : ℕ) (cs : List ℕ) → member d (append_new c cs) ≡ (member d cs || c == d)
unfolding member
member-append_new c d cs =
    ground (arith, member-append d cs (c ∷ []), ==_iff c d, ap (λ x. member x cs))

distinct-append :
    (c : ℕ) (cs : List ℕ)
    → distinct cs ≡ true
    → member c cs ≡ false
    → distinct (cs ++ c ∷ []) ≡ true
unfolding distinct member
distinct-append c [] h e = refl
distinct-append c (x ∷ xs) h e =
    ground (arith, distinct-append c xs, member-append x xs (c ∷ []), ==_iff x c, ==_iff c x)

pub distinct-append_new :
    (c : ℕ) (cs : List ℕ) → distinct cs ≡ true → distinct (append_new c cs) ≡ true
distinct-append_new c cs h = elim (Bool-cases (member c cs)) [
  | inl e ↦ rw e h
  | inr e ↦ rw e (distinct-append c cs h e)
]

append_new-ne_nil : (c : ℕ) (cs : List ℕ) → append_new c cs ≢ []
unfolding member
append_new-ne_nil c [] h = ground arith
append_new-ne_nil c (x ∷ xs) h = ground arith

get-add_subscriber :
    (s s' : Text) (c d : ℕ) (t : Table)
    → member d (get s' (add_subscriber s c t)) ≡ (member d (get s' t) || (text_eq s s' && c == d))
unfolding get add_subscriber
get-add_subscriber s s' c d [] = unfold member in ground arith
get-add_subscriber s s' c d ((k, cs) ∷ t) = ground (
  arith,
  get-add_subscriber s s' c d t,
  member-append_new c d cs,
  text_eq_sound k s,
  text_eq_sound k s',
  text_eq_sound s s',
  text_eq_refl s,
  ap (λ x. text_eq x s'),
)

has_key-add_subscriber :
    (s k : Text) (c : ℕ) (t : Table)
    → has_key k (add_subscriber s c t) ≡ (has_key k t || text_eq s k)
unfolding add_subscriber
has_key-add_subscriber s k c [] = ground arith
has_key-add_subscriber s k c ((s', cs) ∷ t) =
    ground (arith, has_key-add_subscriber s k c t, text_eq_sound s' s, ap (λ x. text_eq x k))

pub add_subscriber-IsTable :
    (s : Text) (c : ℕ) (t : Table) → IsTable t → IsTable (add_subscriber s c t)
unfolding add_subscriber distinct member
add_subscriber-IsTable s c [] h = (refl, λ e. ground arith, refl, tt)
add_subscriber-IsTable s c ((s', cs) ∷ t) (fresh, some_left, once, rest) =
    elim (Bool-cases (text_eq s' s)) [
      | inl e ↦ rw e (fresh, append_new-ne_nil c cs, distinct-append_new c cs once, rest)
      | inr e ↦ rw e (
        ground (
          arith,
          has_key-add_subscriber s s' c t,
          text_eq_sound s s',
          text_eq_refl s,
          ap (λ x. text_eq x s),
        ),
        some_left,
        once,
        add_subscriber-IsTable s c t rest,
      )
    ]

pub absent-get : (s : Text) (t : Table) → has_key s t ≡ false → get s t ≡ []
unfolding get
absent-get s [] h = refl
absent-get s ((k, cs) ∷ t) h = ground (arith, absent-get s t)

-- What is found under a subject in a table whose first entry has been cut down to `cs`.
pub get-put_back :
    (k s : Text) (cs : List ℕ) (t : Table)
    → has_key k t ≡ false
    → get s (put_back k cs t) ≡ (if text_eq k s then cs else get s t)
unfolding get
get-put_back k s [] t h = elim (Bool-cases (text_eq k s)) [
  | inl e ↦ rw e (absent-get s t (ap (λ x. has_key x t) (sym (text_eq_sound k s e)) ∙ h))
  | inr e ↦ rw e
]
get-put_back k s (c ∷ cs) t h = refl

member-remove :
    (c d : ℕ) (cs : List ℕ)
    → distinct cs ≡ true
    → member d (remove c cs) ≡ (member d cs && not (c == d))
member-remove c d cs h = elim (Bool-cases (c == d)) [
  | inl e ↦ rw e (
      ap (λ x. member x (remove c cs)) (sym ((==_iff c d).0 e))
      ∙ member-remove_self c cs h
      ∙ ground arith)
  | inr e ↦ rw e (member-remove_ne c d cs (λ p. ground (arith, ==_iff c d)) ∙ ground arith)
]

get-remove_subscriber :
    (s s' : Text) (c d : ℕ) (t : Table)
    → IsTable t
    → member d (get s' (remove_subscriber s c t))
      ≡ (member d (get s' t) && not (text_eq s s' && c == d))
unfolding get remove_subscriber
get-remove_subscriber s s' c d [] h = unfold member in refl
get-remove_subscriber s s' c d ((k, cs) ∷ t) (fresh, some_left, once, rest) = ground (
  arith,
  get-remove_subscriber s s' c d t rest,
  get-put_back k s' (remove c cs) t fresh,
  member-remove c d cs once,
  text_eq_sound k s,
  text_eq_sound k s',
  text_eq_sound s s',
  text_eq_refl s,
  ap (λ x. text_eq x s'),
)

has_key-remove_subscriber :
    (s k : Text) (c : ℕ) (t : Table)
    → has_key k t ≡ false
    → has_key k (remove_subscriber s c t) ≡ false
unfolding remove_subscriber
has_key-remove_subscriber s k c [] h = refl
has_key-remove_subscriber s k c ((s', cs) ∷ t) h = elim (Bool-cases (text_eq s' s)) [
  | inl e ↦ rw e (put_back_absent s' k (remove c cs) t h)
  | inr e ↦ rw e (ground (arith, has_key-remove_subscriber s k c t))
]
  where
    put_back_absent :
        (s' k : Text) (cs : List ℕ) (t : Table)
        → (text_eq s' k || has_key k t) ≡ false
        → has_key k (put_back s' cs t) ≡ false
    put_back_absent s' k [] t h = ground arith
    put_back_absent s' k (c ∷ cs) t h = h

put_back-IsTable :
    (s : Text) (cs : List ℕ) (t : Table)
    → has_key s t ≡ false
    → distinct cs ≡ true
    → IsTable t
    → IsTable (put_back s cs t)
put_back-IsTable s [] t fresh once rest = rest
put_back-IsTable s (c ∷ cs) t fresh once rest = (fresh, λ e. ground arith, once, rest)

remove_subscriber-IsTable :
    (s : Text) (c : ℕ) (t : Table) → IsTable t → IsTable (remove_subscriber s c t)
unfolding remove_subscriber
remove_subscriber-IsTable s c [] h = tt
remove_subscriber-IsTable s c ((s', cs) ∷ t) (fresh, some_left, once, rest) =
    elim (Bool-cases (text_eq s' s)) [
      | inl e ↦ rw e (put_back-IsTable s' (remove c cs) t fresh (distinct-remove c cs once) rest)
      | inr e ↦ rw e (
        has_key-remove_subscriber s s' c t fresh,
        some_left,
        once,
        remove_subscriber-IsTable s c t rest,
      )
    ]

-- Both changes keep the table's form.
pub subscriber-IsTable :
    (s : Text) (c : ℕ) (t : Table)
    → IsTable t
    → IsTable (add_subscriber s c t) × IsTable (discard_subscriber s c t).1
unfolding discard_subscriber
subscriber-IsTable s c t h = (
  add_subscriber-IsTable s c t h,
  elim (Bool-cases (member c (get s t))) [
    | inl e ↦ rw e (remove_subscriber-IsTable s c t h)
    | inr e ↦ rw e h
  ],
)

pub get-discard_subscriber :
    (s s' : Text) (c d : ℕ) (t : Table)
    → IsTable t
    → ((discard_subscriber s c t).0 ≡ member c (get s t))
      × (member d (get s' (discard_subscriber s c t).1)
          ≡ (member d (get s' t) && not (text_eq s s' && c == d)))
unfolding discard_subscriber
get-discard_subscriber s s' c d t h = elim (Bool-cases (member c (get s t))) [
  | inl e ↦ rw e (refl, get-remove_subscriber s s' c d t h)
  | inr e ↦ rw e (
    refl,
    ground (
      arith,
      e,
      text_eq_sound s s',
      ==_iff c d,
      ap (λ x. member c (get x t)),
      ap (λ x. member x (get s' t)),
    ),
  )
]

-- In a table that has each subject once, no empty entry and no connection twice under a subject: after
-- `_add_subscriber` the subscribers of each subject are those from before, and `c` for `s`. And
-- `_discard_subscriber` reports whether `c` was subscribed to `s`, and leaves every subject's
-- subscribers but `c` for `s`. Both keep the table in that form.
pub get-subscriber :
    (s s' : Text) (c d : ℕ) (t : Table)
    → IsTable t
    → (member d (get s' (add_subscriber s c t)) ≡ (member d (get s' t) || (text_eq s s' && c == d)))
      × ((discard_subscriber s c t).0 ≡ member c (get s t))
      × (member d (get s' (discard_subscriber s c t).1)
          ≡ (member d (get s' t) && not (text_eq s s' && c == d)))
      × IsTable (add_subscriber s c t)
      × IsTable (discard_subscriber s c t).1
get-subscriber s s' c d t h =
    let (there, left) = get-discard_subscriber s s' c d t h in
    let (added, discarded) = subscriber-IsTable s c t h in
    (get-add_subscriber s s' c d t, there, left, added, discarded)
