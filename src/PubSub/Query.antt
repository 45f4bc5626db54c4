-- ===== src/PubSub/Query.antt =====
-- `_Query` of software_bus/pubsub.py: a reachability query sent on, and its combined replies.
mod Laws
mod Tests
use software_bus.Prelude.{
  ℕ, not, ◌||◌, Bool, true, false, if◌then◌else◌, Option, none, some, List, [], ◌∷◌, member, select,
  ◌==◌,
}
use software_bus.PubSub.Codec.{ReachabilityResult, found, not_found, unknown}

-- `result` is the future: none until it is done.
pub record Query : Type 0 where
  pub targets : List ℕ
  pub waiting : List ℕ
  pub saw_unknown : Bool
  pub result : Option ReachabilityResult

abbrev pub new_query : List ℕ → Query
new_query targets = record {
  targets = targets;
  waiting = targets;
  saw_unknown = false;
  result = none;
}

abbrev pub is_some : Option ReachabilityResult → Bool
is_some none = false
is_some (some r) = true

-- `self._waiting.discard(connection)` on the set.
abbrev pub discard : ℕ → List ℕ → List ℕ
discard c cs = select (λ d. not (d == c)) cs

-- The result once nobody is waited for.
abbrev pub settle : List ℕ → Bool → Option ReachabilityResult
settle [] saw = some (if saw then unknown else not_found)
settle (c ∷ cs) saw = none

abbrev pub record_reply : ReachabilityResult → List ℕ → Query → Query
record_reply found waiting q = record q { waiting = waiting; result = some found }
record_reply unknown waiting q = record q {
  waiting = waiting;
  saw_unknown = true;
  result = settle waiting true;
}
record_reply not_found waiting q = record q {
  waiting = waiting;
  result = settle waiting q.saw_unknown;
}

unfoldable pub reply : ℕ → ReachabilityResult → Query → Query
reply c r q =
    if is_some q.result || not (member c q.waiting)
    then q
    else record_reply r (discard c q.waiting) q

unfoldable pub replies : List (ℕ × ReachabilityResult) → Query → Query
replies [] q = q
replies ((c, r) ∷ rs) q = replies rs (reply c r q)
