-- ===== src/SubjectMatcher.antt =====
-- software_bus/subject_matcher.py
pub mod Laws
pub mod Tests
use mathlib.Core.List.{zip}
use software_bus.Prelude.{
  ℕ, List, [], ◌∷◌, Bool, true, false, not, ◌||◌, ◌==◌, if◌then◌else◌, all, any, length,
}
use software_bus.Text.{Text, codes, text_eq}
use software_bus.Text.Split.{split}

abbrev pub wildcard : Text
wildcard = codes "*"

abbrev pub parts : Text → List Text
parts s = split b'.' s

unfoldable pub has_wildcard : Text → Bool
has_wildcard subject = any (text_eq wildcard) (parts subject)

unfoldable pub exact_match : Text → Text → Bool
exact_match given_subject target_subject = text_eq given_subject target_subject

abbrev pub part_matches : Text × Text → Bool
part_matches (given_part, target_part) =
    text_eq target_part wildcard || text_eq given_part target_part

unfoldable pub match : Text → Text → Bool
match given_subject target_subject =
    let given_parts = parts given_subject in
    let target_parts = parts target_subject in
    if not (length given_parts == length target_parts)
    then false
    else all part_matches (zip given_parts target_parts)
