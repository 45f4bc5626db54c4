-- ===== src/SubjectMatcher/Laws.antt =====
-- What `match` of software_bus/subject_matcher.py decides.
use mathlib.Core.List.{zip}
use software_bus.Prelude.{
  List, [], ◌∷◌, Bool, true, false, not, ◌&&◌, ◌==◌, if◌then◌else◌, all, any, length, ◌≡◌, ◌↔◌, ◌⊎◌,
  and_left, and_right, or_true_left, or_false_right, bool_ext, inl, inr, refl, sym, ◌∙◌, arith,
}
use software_bus.Text.{Text, text_eq, text_eq_iff, text_eq_refl, text_eq_sound}
use software_bus.Text.Split.{split-injective}
use software_bus.SubjectMatcher.{wildcard, parts, has_wildcard, exact_match, match, part_matches}

-- The design's rule: as many parts, and each target part is the wild card or the given part.
pub data Matches : List Text → List Text → Type 0 where
  done : Matches [] []
  part :
      {g t : Text} {gs ts : List Text}
      → (t ≡ wildcard) ⊎ (g ≡ t)
      → Matches gs ts
      → Matches (g ∷ gs) (t ∷ ts)

-- The body of `match`, over the parts.
abbrev test : List Text → List Text → Bool
test gs ts = if not (length gs == length ts) then false else all part_matches (zip gs ts)

test-cons :
    (g t : Text) (gs ts : List Text) → test (g ∷ gs) (t ∷ ts) ≡ (part_matches (g, t) && test gs ts)
unfolding zip
test-cons g t gs ts = ground arith

part_matches_sound : (g t : Text) → part_matches (g, t) ≡ true → (t ≡ wildcard) ⊎ (g ≡ t)
part_matches_sound g t h = ground (arith, text_eq_sound t wildcard, text_eq_sound g t)

part_matches_complete : (g t : Text) → (t ≡ wildcard) ⊎ (g ≡ t) → part_matches (g, t) ≡ true
unfolding text_eq
part_matches_complete g t (inl e) = rw e refl
part_matches_complete g t (inr e) = rw (e, text_eq_refl t) (ground arith)

test_sound : (gs ts : List Text) → test gs ts ≡ true → Matches gs ts
test_sound [] [] h = done
test_sound [] (t ∷ ts) h = ground arith
test_sound (g ∷ gs) [] h = ground arith
test_sound (g ∷ gs) (t ∷ ts) h =
    let both : (part_matches (g, t) && test gs ts) ≡ true = sym (test-cons g t gs ts) ∙ h in
    part (part_matches_sound g t (and_left _ _ both)) (test_sound gs ts (and_right _ _ both))

test_complete : {gs ts : List Text} → Matches gs ts → test gs ts ≡ true
unfolding zip
test_complete done = refl
test_complete (part {g} {t} {gs} {ts} h m) =
    test-cons g t gs ts ∙ rw (part_matches_complete g t h) (test_complete m)

-- `match` is true exactly when the two subjects have as many parts and every part of the target is
-- the wild card or equals the given subject's part.
pub match-iff-Matches :
    (given target : Text) → (match given target ≡ true) ↔ Matches (parts given) (parts target)
unfolding match
match-iff-Matches given target = (test_sound (parts given) (parts target), λ m. test_complete m)

Matches-refl : (ps : List Text) → Matches ps ps
Matches-refl [] = done
Matches-refl (p ∷ ps) = part (inr refl) (Matches-refl ps)

Matches-trans : {ps qs rs : List Text} → Matches ps qs → Matches qs rs → Matches ps rs
Matches-trans done done = done
Matches-trans (part h m) (part (inl e) n) = part (inl e) (Matches-trans m n)
Matches-trans (part (inl e) m) (part (inr f) n) = part (inl (sym f ∙ e)) (Matches-trans m n)
Matches-trans (part (inr e) m) (part (inr f) n) = part (inr (e ∙ f)) (Matches-trans m n)

-- If one subject matches a second, and the second, its wild cards read literally, matches a third,
-- then the first matches the third.
pub match_trans : (a b c : Text) → match a b ≡ true → match b c ≡ true → match a c ≡ true
match_trans a b c h k =
    (match-iff-Matches a c).1
      (Matches-trans ((match-iff-Matches a b).0 h) ((match-iff-Matches b c).0 k))

Matches-literal : {gs ts : List Text} → any (text_eq wildcard) ts ≡ false → Matches gs ts → gs ≡ ts
unfolding text_eq
Matches-literal h done = refl
Matches-literal h (part {g} {t} {gs} {ts} (inl e) m) =
    cc (h, or_true_left (text_eq wildcard t) (any (text_eq wildcard) ts) (rw e refl))
Matches-literal h (part {g} {t} {gs} {ts} (inr e) m) =
    cc (e, Matches-literal (or_false_right (text_eq wildcard t) (any (text_eq wildcard) ts) h) m)

-- Against a target without a wild card part, `match` is equality of the subjects: it agrees with
-- the exact matcher.
pub match_literal :
    (given target : Text)
    → has_wildcard target ≡ false
    → match given target ≡ exact_match given target
unfolding has_wildcard exact_match
match_literal given target h =
    bool_ext (match given target) (text_eq given target)
      (λ m. (text_eq_iff given target).1 (
        split-injective b'.' given target
          (Matches-literal h ((match-iff-Matches given target).0 m))))
      (λ e.
        (match-iff-Matches given target).1
          (rw (text_eq_sound given target e) (Matches-refl (parts target))))
