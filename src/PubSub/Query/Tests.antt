-- ===== src/PubSub/Query/Tests.antt =====
-- A run of `_Query` (software_bus/pubsub.py) with three targets.
use software_bus.Prelude.{◌≡◌, refl, arith, false, some, List, [], ◌∷◌, ℕ, member, select}
use software_bus.PubSub.Codec.{ReachabilityResult, found, not_found, unknown}
use software_bus.PubSub.Query.{new_query, reply, replies}
use software_bus.PubSub.Query.Laws.{combined, result-replies}

abbrev three : List ℕ
three = 1 ∷ 2 ∷ 3 ∷ []

abbrev log : List (ℕ × ReachabilityResult)
log = (2, unknown) ∷ (2, found) ∷ (9, found) ∷ (3, not_found) ∷ (1, not_found) ∷ (1, found) ∷ []

replies_runs : (replies log (new_query three)).result ≡ some unknown
unfolding replies reply member select
replies_runs = refl

result-replies_example : (replies log (new_query three)).result ≡ combined three false log
result-replies_example = result-replies log three (λ e. ground arith)
