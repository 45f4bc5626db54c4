-- ===== src/PubSub/Check/Tests.antt =====
-- The theorems about the cycle check (software_bus/pubsub.py) at concrete nodes.
use software_bus.Prelude.{
  ◌≡◌, ◌≤◌, ◌+◌, ◌*◌, ℕ, refl, ◌⊎◌, true, none, some, [], ◌∷◌, member, select, update, ok,
}
use software_bus.Text.{text_eq}
use software_bus.BaseLayer.Node.{Node, new_node}
use software_bus.BaseLayer.Node.Transfer.{OnError, establish_connection}
use software_bus.PubSub.Codec.{not_found, encode_message}
use software_bus.PubSub.Query.{new_query}
use software_bus.PubSub.State.{PubSub, new_pub_sub, new_pending}
use software_bus.PubSub.Node.{error_callback, send_to}
use software_bus.PubSub.Node.Receive.{activate, on_new_connection}
use software_bus.PubSub.Check.{
  Checks, no_checks, State, done, late, cancelled, acquiring, acquired, identifying, asking,
  accepting, ended, left_locked, go, wake, done_at, acquire, enter, cancel, leave_locked,
  begin_check, start_check, conclude, conclude_query, query_result, end_query,
}
use software_bus.PubSub.Check.Protocol.{Moves}
use software_bus.PubSub.Check.Follows.{wake-Moves}
use software_bus.PubSub.Check.Runs.{
  Reach, here, onward, begins, wakes, others, Exclusive, Reach-Exclusive,
}
use software_bus.PubSub.Check.Attempts.{turns, turns-le, is_unfinished, Reach-wake}

abbrev errors : OnError PubSub
errors = error_callback 1000

-- The connection 3 is upstream and pending, and its peer has sent its Node ID; 1 is downstream.
abbrev node : Node × PubSub
node = (
  record new_node { downstream_connections = 1 ∷ []; upstream_connections = 3 ∷ [] },
  record (new_pub_sub (5 ∷ [])) {
    peer_node_ids = λ c. some (c ∷ []);
    pending = 3 ∷ [];
    check = λ c. record new_pending { hello = some (ok (3 ∷ [])) };
    queries = (9 ∷ [], record (new_query (1 ∷ [])) { waiting = []; result = some not_found }) ∷ [];
  },
)

-- Its check has asked 1, whose reply has come.
abbrev asked : Checks
asked = record { lock = some 3; stage = λ c. asking (3 ∷ []) 0 (9 ∷ []) }

abbrev let_in : State
let_in = (go 3 accepting asked, activate errors 1000 3 (end_query (9 ∷ []) node))

replied_run : wake errors 1000 5 (done []) 3 (asked, node) ≡ some let_in
unfolding wake done_at conclude_query conclude query_result text_eq
replied_run = refl

wake-Moves_example : Moves 5 3 asked node let_in.0
wake-Moves_example = wake-Moves errors 1000 5 3 asked node (done []) let_in replied_run

-- A connection has been made and its check has got the lock.
abbrev begun : State
begun = begin_check errors 1000 5 3 (no_checks, (new_node, new_pub_sub (5 ∷ [])))

abbrev has_lock_now : State
has_lock_now = (record (go 3 acquired begun.0) { lock = some 3 }, node)

abbrev holding : State
holding = (go 3 identifying has_lock_now.0, node)

got_lock : wake errors 1000 5 (done []) 3 (begun.0, node) ≡ some has_lock_now
unfolding wake done_at acquire begin_check start_check establish_connection on_new_connection
    send_to encode_message update member select
got_lock = refl

entered : wake errors 1000 5 (done []) 3 has_lock_now ≡ some holding
unfolding wake done_at enter begin_check update member
entered = refl

-- Cancelled in between, the check of 3 leaves the lock held, so another check that waits for it waits on.
left_run :
    wake errors 1000 5 cancelled 3 has_lock_now ≡ some (leave_locked errors 1000 5 3 has_lock_now)
unfolding wake cancel begin_check update
left_run = refl

abbrev waits_for_it : State
waits_for_it = (go 4 acquiring (leave_locked errors 1000 5 3 has_lock_now).0, node)

stuck_run :
    (wake errors 1000 5 (done []) 4 waits_for_it ≡ none)
    × (waits_for_it.0.stage 3 ≡ ended left_locked)
unfolding wake done_at acquire begin_check update
stuck_run = (refl, refl)

abbrev run : Reach errors 1000 5 (no_checks, (new_node, new_pub_sub (5 ∷ []))) holding
run =
    onward
      (onward (onward (onward here (begins 3 refl)) (others node)) (wakes (done []) 3 got_lock))
      (wakes (done []) 3 entered)

Reach-Exclusive_example : Exclusive holding.0
Reach-Exclusive_example = Reach-Exclusive errors 1000 5 (new_node, new_pub_sub (5 ∷ [])) run

turns-le_example : turns errors 1000 5 3 run ≤ 2 * 5 + 4
turns-le_example = turns-le errors 1000 5 3 (new_node, new_pub_sub (5 ∷ [])) run

Reach-wake_example :
    ((d : ℕ) × (st : State) × ((wake errors 1000 5 late d holding ≡ some st)
        ⊎ (wake errors 1000 5 (done (8 ∷ [])) d holding ≡ some st)))
    ⊎ ((d : ℕ) × (holding.0.stage d ≡ ended left_locked))
Reach-wake_example = Reach-wake errors 1000 5 (8 ∷ []) 3 (new_node, new_pub_sub (5 ∷ [])) run waits
  where
    waits : is_unfinished (holding.0.stage 3) ≡ true
    waits = unfold begin_check update in refl
