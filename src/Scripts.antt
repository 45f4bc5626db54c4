-- ===== src/Scripts.antt =====
-- The scripts of software_bus and what they share in software_bus/_cli.py: which calls of a client or
-- a node a script awaits, one after the other, and how it ends. How each call ends is an argument.
-- Printing, logging and the parsing of arguments are left out.
mod Clients
mod Requesting
mod Laws
mod Servers
mod Tests
use software_bus.Prelude.{
  ℕ, zero, suc, not, ◌&&◌, ◌||◌, Bool, true, false, if◌then◌else◌, List, [], ◌∷◌, ◌++◌, map, any,
  all, Option, none, some, Result, ok, err, Error, is_value_error,
}
use software_bus.Text.{Text, Bytes, codes, text_eq}
use software_bus.Text.Utf8.{encode}
use software_bus.PubSub.Codec.{check_subject, check_publish_subject}
use software_bus.RequestReply.{check_request_subject}
use software_bus.BaseLayer.Node.{Address}
use software_bus.Cli.{
  Attempt, Ended, connect_failed, given_up, trying, keep_connected, first_reconnect_delay,
}

-- What a script raises: an OSError, another error of the library, its cancellation, or one of the
-- classes of ScriptError.
pub data Raised : Type 0 where
  os_error : Raised
  other_error : Error → Raised
  cancelled : Raised
  cannot_connect cannot_listen connection_lost no_reply : Raised
  invalid_subject : Text → Raised

-- A call or a script that has not ended, or has.
pub data Outcome : Type 0 where
  waiting : Outcome
  returned : Outcome
  raised : Raised → Outcome

-- What a script awaits; `waits_ended` is the future `ended` of rr_request, and `waits_forever` an event
-- that nobody sets.
pub data Act : Type 0 where
  connects : Act
  sends : Bytes → Act
  publishes : Text → Bytes → Act
  subscribes : Text → Act
  accepts : Text → Act
  requests : Text → Bytes → Act
  sleeps : Act
  waits_ended : Act
  waits_forever : Act
  establishes : Address → Act
  listens : Address → Act
  keeps_connected : Act
  closes : Act

-- `connect`, `run_server` and `_listen` raise errors of their own in place of an OSError.
abbrev pub translated : Act → Raised → Raised
translated connects os_error = cannot_connect
translated (establishes address) os_error = cannot_connect
translated (listens address) os_error = cannot_listen
translated act e = e

-- What a body awaits, and what follows the last call: a return, or an error of an expression.
abbrev pub Body : Type 0
Body = List Act × Outcome

-- The calls that are made, and how the last one has ended, or the body.
unfoldable pub perform : List Act → Outcome → List Outcome → List Act × Outcome
perform [] last endings = ([], last)
perform (act ∷ acts) last [] = (act ∷ [], waiting)
perform (act ∷ acts) last (waiting ∷ endings) = (act ∷ [], waiting)
perform (act ∷ acts) last (raised e ∷ endings) = (act ∷ [], raised (translated act e))
perform (act ∷ acts) last (returned ∷ endings) =
    let (performed, o) = perform acts last endings in (act ∷ performed, o)

-- What has happened to a script besides its calls: a connection lost, or an interrupt.
pub data Watch : Type 0 where
  quiet lost interrupted : Watch

-- `run_until_connection_lost`: once the connection is lost, whatever its body comes to.
abbrev pub until_lost : Watch → Outcome → Outcome
until_lost lost o = raised connection_lost
until_lost interrupted waiting = raised cancelled
until_lost interrupted o = o
until_lost quiet o = o

-- `finally: await client.close()`
abbrev pub closing : List Act × Outcome → List Act × Outcome
closing (acts, waiting) = (acts, waiting)
closing (acts, o) = (acts ++ closes ∷ [], o)

-- `check_subjects`: what it raises, if anything.
unfoldable pub check_subjects : (Text → Result (Unit {0})) → List Text → Option Raised
check_subjects check [] = none
check_subjects check (subject ∷ subjects) = elim (check subject) [
  | ok u ↦ check_subjects check subjects
  | err e ↦ some (if is_value_error e then invalid_subject subject else other_error e)
]

-- What the `run` of each client's script has in common.
unfoldable pub run_client :
    (Text → Result (Unit {0})) → List Text → Body → List Outcome → Watch → List Act × Outcome
run_client check subjects (acts, last) endings watch = elim (check_subjects check subjects) [
  | some e ↦ ([], raised e)
  | none ↦ let (performed, o) = perform acts last endings in closing (performed, until_lost watch o)
]

-- The exit status after `run_until_interrupted`, where the script has ended.
abbrev pub exit_status : Outcome → Option ℕ
exit_status waiting = none
exit_status returned = some 0
exit_status (raised cancelled) = some 0
exit_status (raised e) = some 1
