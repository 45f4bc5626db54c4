-- ===== src/PubSub/Subscriptions/Matching.antt =====
-- Which connections `_matching_connections` (software_bus/pubsub.py) returns for a publish.
use software_bus.Prelude.{
  ℕ, ◌≡◌, ◌↔◌, refl, sym, ap, ◌∙◌, arith, ◌&&◌, ◌||◌, Bool, true, List, [], ◌∷◌, member, distinct,
  any, Bool-cases, inl, inr,
}
use software_bus.Text.{Text, text_eq, text_eq_sound, text_eq_refl}
use software_bus.SubjectMatcher.{match}
use software_bus.PubSub.Subscriptions.{
  Table, get, append_new, update_keys, matching_loop, matching_connections,
}
use software_bus.PubSub.Subscriptions.Laws.{
  IsTable, has_key, absent-get, member-append_new, distinct-append_new,
}

member-update_keys :
    (d : ℕ) (keys cs : List ℕ) → member d (update_keys keys cs) ≡ (member d keys || member d cs)
unfolding update_keys member
member-update_keys d keys [] = unfold member in ground arith
member-update_keys d keys (c ∷ cs) =
    ground (arith, member-update_keys d (append_new c keys) cs, member-append_new c d keys)

distinct-update_keys :
    (keys cs : List ℕ) → distinct keys ≡ true → distinct (update_keys keys cs) ≡ true
unfolding update_keys
distinct-update_keys keys [] h = h
distinct-update_keys keys (c ∷ cs) h =
    distinct-update_keys (append_new c keys) cs (distinct-append_new c keys h)

distinct-matching_loop :
    (s : Text) (keys : List ℕ) (t : Table)
    → distinct keys ≡ true
    → distinct (matching_loop s keys t) ≡ true
unfolding matching_loop
distinct-matching_loop s keys [] h = h
distinct-matching_loop s keys ((k, cs) ∷ t) h = elim (Bool-cases (match s k)) [
  | inl e ↦ rw e (distinct-matching_loop s (update_keys keys cs) t (distinct-update_keys keys cs h))
  | inr e ↦ rw e (distinct-matching_loop s keys t h)
]

-- Some subject of the table is matched and has the connection.
abbrev wanted : Text → ℕ → Table → Bool
wanted s d t = any (λ entry. match s entry.0 && member d entry.1) t

member-matching_loop :
    (s : Text) (d : ℕ) (keys : List ℕ) (t : Table)
    → member d (matching_loop s keys t) ≡ (member d keys || wanted s d t)
unfolding matching_loop
member-matching_loop s d keys [] = ground arith
member-matching_loop s d keys ((k, cs) ∷ t) = elim (Bool-cases (match s k)) [
  | inl e ↦ simp e (
      ground
        (arith, member-matching_loop s d (update_keys keys cs) t, member-update_keys d keys cs))
  | inr e ↦ simp e (member-matching_loop s d keys t)
]

-- In a table, an entry is what `get` finds.
wanted_found :
    (s : Text) (d : ℕ) (t : Table)
    → IsTable t
    → wanted s d t ≡ true
    → (k : Text) × (match s k ≡ true) × (member d (get k t) ≡ true)
unfolding get
wanted_found s d [] h w = absurd (ground arith)
wanted_found s d ((k, cs) ∷ t) (fresh, some_left, once, rest) w =
    elim (Bool-cases (match s k && member d cs)) [
      | inl e ↦ (k, ground arith, ground (arith, text_eq_refl k))
      | inr e ↦
          let (k', m, f) = wanted_found s d t rest (ground arith) in
          (
            k',
            m,
            elim (Bool-cases (text_eq k k')) [
              | inl same ↦ absurd (
                  no_entry k k' d t same
                    (absent-get k' t
                      (ap (λ x. has_key x t) (sym (text_eq_sound k k' same)) ∙ fresh))
                    f)
              | inr other ↦ rw other f
            ],
          )
    ]
  where
    no_entry :
        (k k' : Text) (d : ℕ) (t : Table)
        → text_eq k k' ≡ true
        → get k' t ≡ []
        → member d (get k' t) ≡ true
        → ⊥
    no_entry k k' d t same e f = unfold member in cc

found_wanted :
    (s : Text) (d : ℕ) (t : Table) (k : Text)
    → match s k ≡ true
    → member d (get k t) ≡ true
    → wanted s d t ≡ true
unfolding get
found_wanted s d [] k m f = unfold member in cc
found_wanted s d ((k', cs) ∷ t) k m f =
    ground (arith, found_wanted s d t k m, text_eq_sound k' k, ap (match s))

-- For a publish to `s` each connection is returned once, and the returned ones are those
-- subscribed to a subject that matches `s`.
pub member-matching_connections :
    (s : Text) (d : ℕ) (t : Table)
    → IsTable t
    → (distinct (matching_connections s t) ≡ true)
      × ((member d (matching_connections s t) ≡ true)
          ↔ ((k : Text) × (match s k ≡ true) × (member d (get k t) ≡ true)))
unfolding matching_connections
member-matching_connections s d t h = (
  distinct-matching_loop s [] t (unfold distinct in refl),
  (
    λ e. wanted_found s d t h (sym (found_by) ∙ e),
    λ (k, m, f). found_by ∙ found_wanted s d t k m f,
  ),
)
  where
    found_by : member d (matching_loop s [] t) ≡ wanted s d t
    found_by = member-matching_loop s d [] t ∙ (unfold member in refl)
