-- ===== src/PubSub/Check/Protocol.antt =====
-- The protocol of the cycle check (software_bus/pubsub.py): how a check may go from stage to stage.
use software_bus.Prelude.{
  ℕ, suc, ◌<◌, ◌≡◌, ◌==◌, Bool, true, false, if◌then◌else◌, Option, none, some, [], ok, member,
}
use software_bus.Text.{Bytes, text_eq}
use software_bus.BaseLayer.Node.{Node}
use software_bus.PubSub.Codec.{not_found}
use software_bus.PubSub.State.{PubSub}
use software_bus.PubSub.Node.Receive.{active_node_connections}
use software_bus.PubSub.Check.{
  Stage, acquiring, acquired, identifying, retrying, asking, accepting, ended, Outcome, accepted,
  refused, lost, left_locked, Checks, is_lost, is_connected_to, query_result,
}

-- The stages that stand under the lock.
abbrev pub is_inside : Stage → Bool
is_inside acquired = true
is_inside identifying = true
is_inside (retrying peer attempt) = true
is_inside (asking peer attempt id) = true
is_inside accepting = true
is_inside stage = false

abbrev pub has_lock : Stage → Bool
has_lock (ended left_locked) = true
has_lock stage = is_inside stage

-- The check ends so that the lock is free, and the connection is not accepted.
abbrev pub frees : Outcome → Bool
frees accepted = false
frees (refused reason) = true
frees lost = true
frees left_locked = false

-- The peer has said who it is: not this node, and no node that is connected already.
pub record Identified (s : Node × PubSub) (c : ℕ) (peer : Bytes) : Type 0 where
  pub said : (s.1.check c).hello ≡ some (ok peer)
  pub other : text_eq peer s.1.node_id ≡ false
  pub new : is_connected_to peer s ≡ false

-- The moves of the check of `c`, with what must hold of the node for each.
pub data Move (max_check_attempts : ℕ) (lock : Option ℕ) (s : Node × PubSub) (c : ℕ)
    : Stage → Stage → Type 0 where
  locked : lock ≡ none → Move max_check_attempts lock s c acquiring acquired
  enters : member c s.1.pending ≡ true → Move max_check_attempts lock s c acquired identifying
  leaves_locked : Move max_check_attempts lock s c acquired (ended left_locked)
  asks_first :
      (peer id : Bytes)
      → Identified s c peer
      → 0 < max_check_attempts
      → Move max_check_attempts lock s c identifying (asking peer 0 id)
  alone_first :
      (peer : Bytes)
      → Identified s c peer
      → active_node_connections s ≡ []
      → is_lost c s.1 ≡ false
      → Move max_check_attempts lock s c identifying accepting
  asks :
      (peer id : Bytes) (attempt : ℕ)
      → Move max_check_attempts lock s c (retrying peer attempt) (asking peer attempt id)
  alone :
      (peer : Bytes) (attempt : ℕ)
      → active_node_connections s ≡ []
      → is_lost c s.1 ≡ false
      → Move max_check_attempts lock s c (retrying peer attempt) accepting
  retries :
      (peer id : Bytes) (attempt : ℕ)
      → suc attempt < max_check_attempts
      → Move max_check_attempts lock s c (asking peer attempt id) (retrying peer (suc attempt))
  unreachable :
      (peer id : Bytes) (attempt : ℕ)
      → query_result id s.1.queries ≡ some not_found
      → is_lost c s.1 ≡ false
      → Move max_check_attempts lock s c (asking peer attempt id) accepting
  drains : Move max_check_attempts lock s c accepting accepting
  finishes : Move max_check_attempts lock s c accepting (ended accepted)
  gives_up : Move max_check_attempts lock s c acquiring (ended lost)
  stops :
      {from : Stage} (o : Outcome)
      → is_inside from ≡ true
      → frees o ≡ true
      → Move max_check_attempts lock s c from (ended o)

-- Who holds the lock after a move.
abbrev pub lock_after : ℕ → Stage → Stage → Option ℕ → Option ℕ
lock_after c acquiring acquired lock = some c
lock_after c acquiring stage lock = lock
lock_after c acquired (ended left_locked) lock = lock
lock_after c from (ended o) lock = none
lock_after c from stage lock = lock

-- Only `c` moves, and takes or releases the lock as it does.
pub record Moves (max_check_attempts : ℕ) (c : ℕ) (k : Checks) (s : Node × PubSub) (k' : Checks)
    : Type 0 where
  pub to : Stage
  pub move : Move max_check_attempts k.lock s c (k.stage c) to
  pub stages : (d : ℕ) → k'.stage d ≡ (if c == d then to else k.stage d)
  pub lock : k'.lock ≡ lock_after c (k.stage c) to k.lock
