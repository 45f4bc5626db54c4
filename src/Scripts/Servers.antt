-- ===== src/Scripts/Servers.antt =====
-- The servers: `run_server` and `_listen` of software_bus/_cli.py, for bl_server and ps_server.
pub mod Laws
use software_bus.Prelude.{ℕ, Bool, true, false, if◌then◌else◌, List, [], ◌∷◌, ◌++◌, map, any, all}
use software_bus.BaseLayer.Node.{Address}
use software_bus.Cli.{
  Attempt, Ended, connect_failed, given_up, keep_connected, first_reconnect_delay,
}
use software_bus.Scripts.{
  Outcome, waiting, returned, raised, Raised, cancelled, cannot_connect, Act, establishes, listens,
  keeps_connected, waits_forever, closes, perform, closing, until_lost, Watch, quiet, interrupted,
}

-- `gather` of one `_keep_connected` for each upstream.
abbrev pub failed_at_start : Ended → Bool
failed_at_start connect_failed = true
failed_at_start e = false

abbrev pub has_given_up : Ended → Bool
has_given_up given_up = true
has_given_up e = false

unfoldable pub gathered : List Ended → Outcome
gathered tasks =
    if any failed_at_start tasks
    then raised cannot_connect
    else if all has_given_up tasks
    then returned
    else waiting

abbrev pub kept : List (List Attempt) → Outcome
kept upstreams =
    gathered (map (λ attempts. (keep_connected first_reconnect_delay true attempts).1) upstreams)

abbrev pub interrupted_if : Bool → Watch
interrupted_if is_interrupted = if is_interrupted then interrupted else quiet

-- `run_server` without `reconnect`.
unfoldable pub run_server : List Address → List Address → List Outcome → Bool → List Act × Outcome
run_server upstreams addresses endings is_interrupted =
    let (acts, o) =
      perform (map establishes upstreams ++ (map listens addresses ++ waits_forever ∷ [])) returned
        endings in
    closing (acts, until_lost (interrupted_if is_interrupted) o)

-- What comes after acts that have all returned.
abbrev pub followed : List Act × Outcome → List Act × Outcome → List Act × Outcome
followed (acts, returned) (acts', o) = (acts ++ acts', o)
followed (acts, o) after = (acts, o)

-- With it: `listening` is how each `accept_connection` ends, `upstreams` how the attempts for each
-- upstream do.
unfoldable pub run_reconnecting_server :
    List Address → List Outcome → List (List Attempt) → Bool → List Act × Outcome
run_reconnecting_server addresses listening upstreams is_interrupted =
    let (acts, o) =
      followed (perform (map listens addresses) returned listening)
        (perform (keeps_connected ∷ waits_forever ∷ []) returned (kept upstreams ∷ [])) in
    closing (acts, until_lost (interrupted_if is_interrupted) o)
