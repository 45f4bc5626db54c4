-- ===== src/Cli/Laws.antt =====
-- The delays of `_keep_connected` (software_bus/_cli.py).
use software_bus.Prelude.{
  ℕ, suc, ◌*◌, ◌^◌, ◌≡◌, refl, ap, arith, ◌∙◌, ◌&&◌, Bool, true, false, if◌then◌else◌, List, [],
  ◌∷◌, ◌++◌, map, all,
}
use software_bus.Cli.{
  Attempt, connected, refused, unreachable, Ended, trying, connect_failed, given_up, at_most, slept,
  keep_connected, first_reconnect_delay,
}

-- Not a refusal that cannot go away.
abbrev pub can_retry : Attempt → Bool
can_retry (refused retryable) = retryable
can_retry attempt = true

abbrev pub is_none_yet : List Attempt → Bool
is_none_yet [] = true
is_none_yet (attempt ∷ attempts) = false

-- For each attempt, how many delays have been slept since the last success, given those so far.
abbrev pub streaks : ℕ → List Attempt → List ℕ
streaks k [] = []
streaks k (connected ∷ attempts) = 0 ∷ streaks 1 attempts
streaks k (attempt ∷ attempts) = k ∷ streaks (suc k) attempts

abbrev pub doubled : ℕ → ℕ
doubled k = at_most (2 ^ k)

doubled-suc : (k : ℕ) → at_most (doubled k * 2) ≡ doubled (suc k)
doubled-suc k = ground arith

abbrev stopped : Bool → List Attempt → Ended
stopped first attempts = if is_none_yet attempts && first then connect_failed else given_up

stopped_later : (attempts : List Attempt) → stopped false attempts ≡ given_up
stopped_later [] = refl
stopped_later (attempt ∷ attempts) = refl

kept_trying :
    (k : ℕ) (first : Bool) (attempts : List Attempt)
    → all can_retry attempts ≡ true
    → keep_connected (doubled k) first attempts ≡ (map doubled (streaks k attempts), trying)
unfolding keep_connected
kept_trying k first [] h = refl
kept_trying k first (connected ∷ attempts) h = ap (slept 1) (kept_trying 1 false attempts h)
kept_trying k first (refused true ∷ attempts) h =
    ap (λ d. slept (doubled k) (keep_connected d false attempts)) (doubled-suc k)
    ∙ ap (slept (doubled k)) (kept_trying (suc k) false attempts h)
kept_trying k first (refused false ∷ attempts) h = absurd (ground (arith, h))
kept_trying k first (unreachable ∷ attempts) h =
    ap (λ d. slept (doubled k) (keep_connected d false attempts)) (doubled-suc k)
    ∙ ap (slept (doubled k)) (kept_trying (suc k) false attempts h)

kept_until :
    (k : ℕ) (first : Bool) (attempts rest : List Attempt)
    → all can_retry attempts ≡ true
    → keep_connected (doubled k) first (attempts ++ refused false ∷ rest)
      ≡ (map doubled (streaks k attempts), stopped first attempts)
unfolding keep_connected
kept_until k first [] rest h = ground arith
kept_until k first (connected ∷ attempts) rest h =
    ap (slept 1) (kept_until 1 false attempts rest h)
    ∙ ap (λ e. (1 ∷ map doubled (streaks 1 attempts), e)) (stopped_later attempts)
kept_until k first (refused true ∷ attempts) rest h =
    ap (λ d. slept (doubled k) (keep_connected d false (attempts ++ refused false ∷ rest)))
      (doubled-suc k)
    ∙ ap (slept (doubled k)) (kept_until (suc k) false attempts rest h)
    ∙ ap (λ e. (doubled k ∷ map doubled (streaks (suc k) attempts), e)) (stopped_later attempts)
kept_until k first (refused false ∷ attempts) rest h = absurd (ground (arith, h))
kept_until k first (unreachable ∷ attempts) rest h =
    ap (λ d. slept (doubled k) (keep_connected d false (attempts ++ refused false ∷ rest)))
      (doubled-suc k)
    ∙ ap (slept (doubled k)) (kept_until (suc k) false attempts rest h)
    ∙ ap (λ e. (doubled k ∷ map doubled (streaks (suc k) attempts), e)) (stopped_later attempts)

-- While each attempt connects or fails in a way that may go away, `_keep_connected` goes on trying,
-- and each delay is 2 to the number of delays slept since the last success, 60 at most. At the first
-- refusal that cannot go away it ends: with ConnectFailed if that is the first attempt, and else by
-- returning.
pub keep_connected_lem :
    (attempts rest : List Attempt)
    → all can_retry attempts ≡ true
    → (keep_connected first_reconnect_delay true attempts
        ≡ (map doubled (streaks 0 attempts), trying))
      × (keep_connected first_reconnect_delay true (attempts ++ refused false ∷ rest) ≡ (
        map doubled (streaks 0 attempts),
        if is_none_yet attempts then connect_failed else given_up,
      ))
keep_connected_lem attempts rest h = (
  kept_trying 0 true attempts h,
  kept_until 0 true attempts rest h
      ∙ ap (λ e. (map doubled (streaks 0 attempts), e)) (at_first attempts),
)
  where
    at_first :
        (attempts : List Attempt)
        → stopped true attempts ≡ (if is_none_yet attempts then connect_failed else given_up)
    at_first [] = refl
    at_first (attempt ∷ attempts) = refl
