-- ===== src/Scripts/Servers/Laws.antt =====
-- How the servers (`run_server` of software_bus/_cli.py) start and end.
use software_bus.Prelude.{
  ℕ, ◌≡◌, refl, ap, arith, not, ◌&&◌, ◌||◌, Bool, true, false, if◌then◌else◌, List, [], ◌∷◌, ◌++◌,
  map, any, ◌∙◌,
}
use software_bus.BaseLayer.Node.{Address}
use software_bus.Cli.{
  Attempt, refused, unreachable, connected, keep_connected, first_reconnect_delay,
}
use software_bus.Scripts.{
  Outcome, waiting, returned, raised, cancelled, cannot_connect, Act, establishes, listens,
  keeps_connected, waits_forever, closes, perform, until_lost,
}
use software_bus.Scripts.Servers.{
  run_server, run_reconnecting_server, interrupted_if, kept, gathered, failed_at_start,
}
use software_bus.Scripts.Laws.{is_returned, closed_after, closing_lem}

-- An upstream's first attempt is refused in a way that cannot go away.
abbrev pub refused_at_first : List Attempt → Bool
refused_at_first (refused false ∷ attempts) = true
refused_at_first attempts = false

later_attempts :
    (attempts : List Attempt) (delay : ℕ)
    → failed_at_start (keep_connected delay false attempts).1 ≡ false
unfolding keep_connected
later_attempts [] delay = refl
later_attempts (refused false ∷ attempts) delay = refl
later_attempts (refused true ∷ attempts) delay = later_attempts attempts _
later_attempts (unreachable ∷ attempts) delay = later_attempts attempts _
later_attempts (connected ∷ attempts) delay = later_attempts attempts _

first_attempt :
    (attempts : List Attempt)
    → failed_at_start (keep_connected first_reconnect_delay true attempts).1
      ≡ refused_at_first attempts
unfolding keep_connected
first_attempt [] = refl
first_attempt (refused false ∷ attempts) = refl
first_attempt (refused true ∷ attempts) = later_attempts attempts _
first_attempt (unreachable ∷ attempts) = later_attempts attempts _
first_attempt (connected ∷ attempts) = later_attempts attempts _

any-failed_at_start :
    (upstreams : List (List Attempt))
    → any failed_at_start
        (map (λ attempts. (keep_connected first_reconnect_delay true attempts).1) upstreams)
      ≡ any refused_at_first upstreams
any-failed_at_start [] = refl
any-failed_at_start (attempts ∷ upstreams) =
    ground (arith, first_attempt attempts, any-failed_at_start upstreams)

perform-listens :
    (addresses : List Address)
    → perform (map listens addresses) returned (map (λ address. returned) addresses)
      ≡ (map listens addresses, returned)
unfolding perform
perform-listens [] = refl
perform-listens (a ∷ addresses) = ap (λ r. (listens a ∷ r.0, r.1)) (perform-listens addresses)

-- How the server's upstreams let it end.
abbrev pub server_outcome : Bool → List (List Attempt) → Outcome
server_outcome is_interrupted upstreams =
    if any refused_at_first upstreams
    then raised cannot_connect
    else if is_interrupted
    then raised cancelled
    else waiting

-- The calls of a server with `reconnect`, where all addresses can be listened on.
abbrev pub server_acts : List Address → List (List Attempt) → List Act
server_acts addresses upstreams =
    map listens addresses
    ++ keeps_connected ∷ (if is_returned (kept upstreams) then waits_forever ∷ [] else [])

perform-keeps_connected :
    (o : Outcome)
    → perform (keeps_connected ∷ waits_forever ∷ []) returned (o ∷ []) ≡ (
      keeps_connected ∷ (if is_returned o then waits_forever ∷ [] else []),
      if is_returned o then waiting else o,
    )
unfolding perform
perform-keeps_connected waiting = refl
perform-keeps_connected returned = refl
perform-keeps_connected (raised e) = refl

kept_outcome :
    (i : Bool) (upstreams : List (List Attempt))
    → until_lost
        (interrupted_if i)
        (if is_returned (kept upstreams) then waiting else kept upstreams)
      ≡ server_outcome i upstreams
unfolding gathered
kept_outcome true upstreams = ground (arith, any-failed_at_start upstreams)
kept_outcome false upstreams = ground (arith, any-failed_at_start upstreams)

-- A server with `reconnect` that can listen on all its addresses listens on these first. It ends with
-- ConnectFailed if the first attempt at one of its upstreams is refused in a way that cannot go away,
-- and else only by an interrupt, also where each `_keep_connected` has returned. Where it ends, it
-- closes the node last.
pub run_reconnecting_server_lem :
    (addresses : List Address) (upstreams : List (List Attempt)) (i : Bool)
    → run_reconnecting_server addresses (map (λ address. returned) addresses) upstreams i ≡ (
      closed_after (server_outcome i upstreams) (server_acts addresses upstreams),
      server_outcome i upstreams,
    )
unfolding run_reconnecting_server
run_reconnecting_server_lem addresses upstreams i = rw (perform-listens addresses) (
    rw (perform-keeps_connected (kept upstreams)) (
      closing_lem (server_acts addresses upstreams) (
        until_lost (interrupted_if i)
          (if is_returned (kept upstreams) then waiting else kept upstreams))
      ∙ ap (λ o. (closed_after o (server_acts addresses upstreams), o)) (kept_outcome i upstreams)))

abbrev pub is_listens : Act → Bool
is_listens (listens address) = true
is_listens act = false

-- For each of the addresses there is an ending, and it is a return.
abbrev pub all_returned : List Address → List Outcome → Bool
all_returned [] endings = true
all_returned (address ∷ addresses) [] = false
all_returned (address ∷ addresses) (o ∷ endings) = is_returned o && all_returned addresses endings

performed-listens :
    (upstreams : List Address) (acts : List Act) (endings : List Outcome)
    → (not (any is_listens (perform (map establishes upstreams ++ acts) returned endings).0)
        || all_returned upstreams endings)
      ≡ true
unfolding perform
performed-listens [] acts endings = ground arith
performed-listens (a ∷ upstreams) acts [] = refl
performed-listens (a ∷ upstreams) acts (waiting ∷ endings) = refl
performed-listens (a ∷ upstreams) acts (raised e ∷ endings) = refl
performed-listens (a ∷ upstreams) acts (returned ∷ endings) =
    performed-listens upstreams acts endings

listens_closed : (acts : List Act) → any is_listens (acts ++ closes ∷ []) ≡ any is_listens acts
listens_closed [] = refl
listens_closed (act ∷ acts) = ap (λ b. is_listens act || b) (listens_closed acts)

listens-closed_after :
    (o : Outcome) (acts : List Act) → any is_listens (closed_after o acts) ≡ any is_listens acts
listens-closed_after waiting acts = refl
listens-closed_after returned acts = listens_closed acts
listens-closed_after (raised e) acts = listens_closed acts

-- Without `reconnect` a server listens on an address only once each of its upstreams has been connected
-- to.
pub run_server-listens :
    (upstreams addresses : List Address) (endings : List Outcome) (i : Bool)
    → (not (any is_listens (run_server upstreams addresses endings i).0)
        || all_returned upstreams endings)
      ≡ true
unfolding run_server
run_server-listens upstreams addresses endings i =
    let acts = map listens addresses ++ waits_forever ∷ [] in
    let (performed, o) = perform (map establishes upstreams ++ acts) returned endings in
    let o' = until_lost (interrupted_if i) o in
    ground (
      arith,
      ap (λ r. any is_listens r.0) (closing_lem performed o'),
      listens-closed_after o' performed,
      performed-listens upstreams acts endings,
    )
