-- ===== src/Cli/Tests.antt =====
-- Runs of `_keep_connected` (software_bus/_cli.py).
use software_bus.Prelude.{◌≡◌, refl, true, false, if◌then◌else◌, List, [], ◌∷◌, ◌++◌, map}
use software_bus.Cli.{
  Attempt, connected, refused, unreachable, trying, connect_failed, given_up, keep_connected,
  first_reconnect_delay,
}
use software_bus.Cli.Laws.{is_none_yet, streaks, doubled, keep_connected_lem}

abbrev attempts : List Attempt
attempts = unreachable ∷ unreachable ∷ connected ∷ refused true ∷ unreachable ∷ []

delays_run : keep_connected 1 true attempts ≡ (1 ∷ 2 ∷ 1 ∷ 2 ∷ 4 ∷ [], trying)
unfolding keep_connected
delays_run = refl

keep_connected_lem_example :
    (keep_connected first_reconnect_delay true attempts
      ≡ (map doubled (streaks 0 attempts), trying))
    × (keep_connected first_reconnect_delay true (attempts ++ refused false ∷ []) ≡ (
      map doubled (streaks 0 attempts),
      if is_none_yet attempts then connect_failed else given_up,
    ))
keep_connected_lem_example = keep_connected_lem attempts [] refl
