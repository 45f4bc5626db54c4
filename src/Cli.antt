-- ===== src/Cli.antt =====
-- `_keep_connected` of software_bus/_cli.py: how a server reconnects to an upstream. A delay is a
-- number of seconds, before it is multiplied by what `random.uniform` gives.
mod Laws
mod Arguments
mod Tests
use software_bus.Prelude.{ℕ, ◌*◌, ltb, Bool, true, false, if◌then◌else◌, List, [], ◌∷◌}

abbrev pub first_reconnect_delay : ℕ
first_reconnect_delay = 1

abbrev pub max_reconnect_delay : ℕ
max_reconnect_delay = 60

-- How `establish_connection` ends, and a connection once it is lost.
pub data Attempt : Type 0 where
  connected : Attempt
  refused : Bool → Attempt
  unreachable : Attempt

-- Still trying, ConnectFailed raised, or returned.
pub data Ended : Type 0 where
  trying : Ended
  connect_failed : Ended
  given_up : Ended

-- `min(delay, MAX_RECONNECT_DELAY)`
abbrev pub at_most : ℕ → ℕ
at_most delay = if ltb max_reconnect_delay delay then max_reconnect_delay else delay

abbrev pub slept : ℕ → List ℕ × Ended → List ℕ × Ended
slept delay (delays, e) = (delay ∷ delays, e)

-- The delays slept, for the attempts that are made.
unfoldable pub keep_connected : ℕ → Bool → List Attempt → List ℕ × Ended
keep_connected delay first_attempt [] = ([], trying)
keep_connected delay first_attempt (refused false ∷ attempts) =
    ([], if first_attempt then connect_failed else given_up)
keep_connected delay first_attempt (refused true ∷ attempts) =
    slept delay (keep_connected (at_most (delay * 2)) false attempts)
keep_connected delay first_attempt (unreachable ∷ attempts) =
    slept delay (keep_connected (at_most (delay * 2)) false attempts)
keep_connected delay first_attempt (connected ∷ attempts) =
    slept first_reconnect_delay
      (keep_connected (at_most (first_reconnect_delay * 2)) false attempts)
