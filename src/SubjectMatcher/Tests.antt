-- ===== src/SubjectMatcher/Tests.antt =====
-- Runs of the functions of software_bus/subject_matcher.py, and its theorems at concrete subjects.
use mathlib.Core.List.{zip}
use software_bus.Prelude.{true, false, ◌≡◌, ◌↔◌, refl}
use software_bus.Text.{codes, text_eq}
use software_bus.Text.Split.{split}
use software_bus.SubjectMatcher.{parts, has_wildcard, match}
use software_bus.SubjectMatcher.Laws.{Matches, match-iff-Matches}

match_runs :
    (match (codes "a.b.c") (codes "a.*.c") ≡ true)
    × (match (codes "a.b") (codes "a.*.c") ≡ false)
    × (match (codes "a*") (codes "*a") ≡ false)
    × (match (codes "") (codes "*") ≡ true)
unfolding match split text_eq zip
match_runs = (refl, refl, refl, refl)

has_wildcard_runs : (has_wildcard (codes "a.*") ≡ true) × (has_wildcard (codes "a.b*") ≡ false)
unfolding has_wildcard split text_eq
has_wildcard_runs = (refl, refl)

match-iff-Matches_example :
    (match (codes "a.b") (codes "a.*") ≡ true) ↔ Matches (parts (codes "a.b")) (parts (codes "a.*"))
match-iff-Matches_example = match-iff-Matches (codes "a.b") (codes "a.*")
