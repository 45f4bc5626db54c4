-- ===== src/Cli/Arguments/Tests.antt =====
-- Runs of the parsers of arguments (software_bus/_cli.py), with functions that know ASCII.
use software_bus.Prelude.{
  ◌≡◌, refl, ◌&&◌, not, leb, all, select, Bool, ok, err, Error, Result, ℕ, [], ◌∷◌,
}
use software_bus.Text.{Text, codes}
use software_bus.Text.Decimal.{value}
use software_bus.Text.Split.{split}
use software_bus.Cli.Arguments.{parse_address, parse_subject_list, rpartition, is_empty}

abbrev is_digits : Text → Bool
is_digits s = not (is_empty s) && all (λ c. leb b'0' c && leb c b'9') s

abbrev number : Text → Result ℕ
number s = ok (value 0 s)

-- The last colon counts.
parse_address_runs :
    (parse_address is_digits number (codes "::1:8787") ≡ ok (codes "::1", 8787))
    × (parse_address is_digits number (codes "localhost") ≡ err Error.argument_type_error)
    × (parse_address is_digits number (codes ":8787") ≡ err Error.argument_type_error)
unfolding parse_address rpartition
parse_address_runs = (refl, refl, refl)

parse_subject_list_runs :
    (parse_subject_list (λ s. s) (codes "a,,b") ≡ ok (codes "a" ∷ codes "b" ∷ []))
    × (parse_subject_list (λ s. s) (codes ",") ≡ err Error.argument_type_error)
unfolding parse_subject_list split select
parse_subject_list_runs = (refl, refl)
