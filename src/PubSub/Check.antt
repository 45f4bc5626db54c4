-- ===== src/PubSub/Check.antt =====
-- The cycle check of `PubSubNode` (software_bus/pubsub.py): `establish_connection`,
-- `_check_new_connection`, `_run_check`, `_unless_lost` and `_ask_own_query`. A check that runs is at
-- one of its awaits; `wake` is what it does, up to its next await, once that await has ended in the
-- way given. It is `none` where the await cannot have ended so.
mod Protocol
mod Attempt
mod Follows
mod Runs
mod Attempts
mod Tests
use software_bus.Prelude.{
  ℕ, suc, not, ◌&&◌, ltb, Bool, true, false, if◌then◌else◌, Option, none, some, List, [], ◌∷◌, any,
  member, update, Result, ok, err, Error,
}
use software_bus.Text.{Bytes, text_eq}
use software_bus.BaseLayer.Node.{Node}
use software_bus.BaseLayer.Node.Transfer.{OnError, handle_connection_error, establish_connection}
use software_bus.PubSub.Codec.{ReachabilityResult, found, not_found, unknown}
use software_bus.PubSub.Query.{Query, discard}
use software_bus.PubSub.State.{PubSub}
use software_bus.PubSub.Node.Receive.{
  active_node_connections, open_query, delete_query, begin_collect, on_new_connection, activate,
  drain_next,
}

-- Why a connection is refused.
pub data Reason : Type 0 where
  unidentified : Reason
  own_node : Reason
  known_node : Reason
  cycle : Reason
  undetermined : Reason

pub data Outcome : Type 0 where
  accepted : Outcome
  refused : Reason → Outcome
  lost : Outcome
  -- Cancelled once the task of `_check_lock.acquire` had ended, before the check went on: the lock
  -- stays held.
  left_locked : Outcome

-- Where the check of a connection waits: for the lock, to go on now that the task that waited for the
-- lock has it, for the peer's Node ID, before the attempt of that number, for the replies to its
-- query of that id, or for the held messages.
pub data Stage : Type 0 where
  idle : Stage
  acquiring : Stage
  acquired : Stage
  identifying : Stage
  retrying : Bytes → ℕ → Stage
  asking : Bytes → ℕ → Bytes → Stage
  accepting : Stage
  ended : Outcome → Stage

-- `_check_lock`, with its holder, and the coroutine of each connection.
pub record Checks : Type 0 where
  pub lock : Option ℕ
  pub stage : ℕ → Stage

abbrev pub no_checks : Checks
no_checks = record { lock = none; stage = λ c. idle }

-- How an await has ended: with what it waits for (the bytes are the id that `uuid.uuid4` gives a query
-- asked next), by its timeout, by the loss of the connection, or since the caller is cancelled.
pub data Wake : Type 0 where
  done : Bytes → Wake
  late : Wake
  abandoned : Wake
  cancelled : Wake

abbrev pub State : Type 0
State = Checks × (Node × PubSub)

abbrev pub go : ℕ → Stage → Checks → Checks
go c stage k = record k { stage = update k.stage c stage }

abbrev pub release : Checks → Checks
release k = record k { lock = none }

-- `pending.lost.done()`
abbrev pub is_lost : ℕ → PubSub → Bool
is_lost c u = elim (u.check c).lost [ none ↦ false | some error ↦ true ]

unfoldable pub query_result : Bytes → List (Bytes × Query) → Option ReachabilityResult
query_result id [] = none
query_result id ((key, q) ∷ queries) =
    let rest = query_result id queries in if text_eq key id then q.result else rest

-- `self._peer_node_ids.get(c) == peer`
abbrev pub has_id : Bytes → Option Bytes → Bool
has_id peer none = false
has_id peer (some id) = text_eq id peer

abbrev pub is_connected_to : Bytes → Node × PubSub → Bool
is_connected_to peer s = any (λ c. has_id peer (s.1.peer_node_ids c)) (active_node_connections s)

-- The `finally` of `_ask_own_query` and of `_collect`.
abbrev pub end_query : Bytes → Node × PubSub → Node × PubSub
end_query id (n, u) = (n, delete_query id (record u { checking = false }))

module _ (on_error : OnError PubSub) (limit max_check_attempts : ℕ) where
  -- The check raises: the connection is dropped, unless it has been already. The error that the callback
  -- gets, none here and a CycleCheckRefused in `refuse`, is a ConnectionError in its place.
  abbrev pub fail : ℕ → State → State
  fail c (k, s) =
      (go c (ended lost) k, handle_connection_error on_error true c Error.connection_error s)

  abbrev pub refuse : ℕ → Reason → State → State
  refuse c reason (k, s) = (
    release (go c (ended (refused reason)) k),
    handle_connection_error on_error true c Error.connection_error s,
  )

  -- The check goes on with the result of an attempt.
  unfoldable pub conclude : ℕ → Bytes → ℕ → ReachabilityResult → State → State
  conclude c peer attempt result (k, s) =
      if is_lost c s.1 then fail c (release k, s) else elim result [
        | found ↦ refuse c cycle (k, s)
        | not_found ↦ (go c accepting k, activate on_error limit c s)
        | unknown ↦
            if ltb (suc attempt) max_check_attempts
            then (go c (retrying peer (suc attempt)) k, s)
            else refuse c undetermined (k, s)
      ]

  -- `_ask_own_query` up to its await, with the targets of the query.
  unfoldable pub ask_query : ℕ → Bytes → ℕ → Bytes → List ℕ → State → State
  ask_query c peer attempt id [] st = conclude c peer attempt not_found st
  ask_query c peer attempt id (d ∷ targets) (k, (n, u)) = (
    go c (asking peer attempt id) k,
    begin_collect on_error limit (d ∷ targets) id peer
        (n, open_query id (d ∷ targets) (record u { checking = true })),
  )

  unfoldable pub ask : ℕ → Bytes → ℕ → Bytes → State → State
  ask c peer attempt id (k, s) =
      if member c s.1.pending
      then ask_query c peer attempt id (active_node_connections s) (k, s)
      else fail c (release k, s)

  -- The check goes on with what the peer says its Node ID is.
  unfoldable pub identify : ℕ → Bytes → Option (Result Bytes) → State → Option State
  identify c id none st = none
  identify c id (some (err e)) (k, s) = some (fail c (release k, s))
  identify c id (some (ok peer)) (k, s) = some (
      if text_eq peer s.1.node_id
      then refuse c own_node (k, s)
      else if is_connected_to peer s
      then refuse c known_node (k, s)
      else if ltb 0 max_check_attempts
      then ask c peer 0 id (k, s)
      else refuse c undetermined (k, s))

  -- The task of `_check_lock.acquire` ends, with the lock. The check itself goes on only later, in
  -- `enter`.
  unfoldable pub acquire : ℕ → Option ℕ → State → Option State
  acquire c (some holder) st = none
  acquire c none (k, s) = some (record (go c acquired k) { lock = some c }, s)

  unfoldable pub enter : ℕ → State → State
  enter c (k, s) = if member c s.1.pending then (go c identifying k, s) else fail c (release k, s)

  -- The check is cancelled before it goes on, outside the `try` that releases the lock.
  abbrev pub leave_locked : ℕ → State → State
  leave_locked c (k, s) =
      (go c (ended left_locked) k, handle_connection_error on_error true c Error.connection_error s)

  -- The connection is lost: the step that it waits for is cancelled, unless that has ended.
  unfoldable pub abandon : ℕ → Stage → State → Option State
  abandon c acquiring st = some (fail c st)
  abandon c (retrying peer attempt) (k, s) = some (fail c (release k, s))
  abandon c (asking peer attempt id) (k, s) = some (fail c (release k, end_query id s))
  abandon c stage st = none

  -- `establish_connection` is cancelled.
  unfoldable pub cancel : ℕ → Stage → State → Option State
  cancel c acquired st = some (leave_locked c st)
  cancel c identifying (k, s) = some (fail c (release k, s))
  cancel c accepting (k, (n, u)) =
      some (fail c (release k, (n, record u { draining = discard c u.draining })))
  cancel c stage st = abandon c stage st

  unfoldable pub conclude_query :
      ℕ → Bytes → ℕ → Bytes → Option ReachabilityResult → State → Option State
  conclude_query c peer attempt id none st = none
  conclude_query c peer attempt id (some result) (k, s) =
      some (conclude c peer attempt result (k, end_query id s))

  -- `_activate` from one held message to the next, and what follows it.
  unfoldable pub drain_held : ℕ → State → State
  drain_held c (k, s) =
      let s' = drain_next on_error limit c s in
      if member c s'.1.draining then (k, s') else (release (go c (ended accepted) k), s')

  unfoldable pub done_at : Stage → Bytes → ℕ → State → Option State
  done_at acquiring id c st = acquire c st.0.lock st
  done_at acquired id c st = some (enter c st)
  done_at identifying id c st = identify c id ((st.1).1.check c).hello st
  done_at (retrying peer attempt) id c st = some (ask c peer attempt id st)
  done_at (asking peer attempt asked) id c st =
      conclude_query c peer attempt asked (query_result asked ((st.1).1.queries)) st
  done_at accepting id c st = some (drain_held c st)
  done_at stage id c st = none

  unfoldable pub late_at : Stage → ℕ → State → Option State
  late_at identifying c st = some (refuse c unidentified st)
  late_at (asking peer attempt asked) c st = conclude_query c peer attempt asked (some unknown) st
  late_at stage c st = none

  unfoldable pub wake : Wake → ℕ → State → Option State
  wake (done id) c st = done_at (st.0.stage c) id c st
  wake late c st = late_at (st.0.stage c) c st
  wake abandoned c st = if is_lost c (st.1).1 then abandon c (st.0.stage c) st else none
  wake cancelled c st = cancel c (st.0.stage c) st

  -- The check up to its wait for the lock, which `_unless_lost` does not begin for a connection that is
  -- pending no longer.
  unfoldable pub start_check : ℕ → State → State
  start_check c (k, s) = if member c s.1.pending then (go c acquiring k, s) else fail c (k, s)

  -- `establish_connection`, once the connection `c` has been made and announced.
  unfoldable pub begin_check : ℕ → State → State
  begin_check c (k, s) =
      if s.0.is_closed
      then (k, s)
      else start_check c (k, (establish_connection (on_new_connection on_error limit) c s).1)
