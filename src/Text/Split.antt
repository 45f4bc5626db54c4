-- ===== src/Text/Split.antt =====
-- `s.split(sep)` for a separator of one character, and `sep.join(parts)`.
use software_bus.Prelude.{
  ℕ, List, [], ◌∷◌, ◌++◌, ◌==◌, ==_iff, ◌≡◌, ◌≢◌, refl, ap, arith, if◌then◌else◌, Bool-cases, inl,
  inr, sym, ◌∙◌,
}

abbrev pub push_first : ℕ → List (List ℕ) → List (List ℕ)
push_first c [] = (c ∷ []) ∷ []
push_first c (p ∷ ps) = (c ∷ p) ∷ ps

unfoldable pub split : ℕ → List ℕ → List (List ℕ)
split sep [] = [] ∷ []
split sep (c ∷ cs) = let rest = split sep cs in if c == sep then [] ∷ rest else push_first c rest

pub join : ℕ → List (List ℕ) → List ℕ
join sep [] = []
join sep (p ∷ []) = p
join sep (p ∷ q ∷ ps) = p ++ sep ∷ join sep (q ∷ ps)

join-push_first : (sep c : ℕ) (ps : List (List ℕ)) → join sep (push_first c ps) ≡ c ∷ join sep ps
unfolding join
join-push_first sep c [] = refl
join-push_first sep c (p ∷ []) = refl
join-push_first sep c (p ∷ q ∷ ps) = refl

pub split-ne-nil : (sep : ℕ) (s : List ℕ) → split sep s ≢ []
unfolding split
split-ne-nil sep [] h = ground arith
split-ne-nil sep (c ∷ s) h = ground arith

join-nil-cons : (sep : ℕ) (ps : List (List ℕ)) → ps ≢ [] → join sep ([] ∷ ps) ≡ sep ∷ join sep ps
unfolding join
join-nil-cons sep [] h = absurd (h refl)
join-nil-cons sep (p ∷ ps) h = refl

-- Joining the parts of a text by the separator gives the text back.
pub join-split : (sep : ℕ) (s : List ℕ) → join sep (split sep s) ≡ s
unfolding split
join-split sep [] = unfold join in refl
join-split sep (c ∷ s) = elim (Bool-cases (c == sep)) [
  | inl e ↦ rw e (
      join-nil-cons sep (split sep s) (split-ne-nil sep s)
      ∙ ground (arith, join-split sep s, ==_iff c sep))
  | inr e ↦ rw e (join-push_first sep c (split sep s) ∙ ap (◌∷◌ c) (join-split sep s))
]

-- So a text is determined by its parts.
pub split-injective : (sep : ℕ) (s t : List ℕ) → split sep s ≡ split sep t → s ≡ t
split-injective sep s t h = sym (join-split sep s) ∙ ap (join sep) h ∙ join-split sep t
