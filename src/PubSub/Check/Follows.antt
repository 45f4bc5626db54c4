-- ===== src/PubSub/Check/Follows.antt =====
-- The cycle check (software_bus/pubsub.py) follows its protocol.
use software_bus.Prelude.{
  ℕ, ◌≡◌, refl, sym, ap, subst, arith, ==_iff, ltb, ltb→lt, true, Option, none, some, member,
  update, Result, ok, err, Bool-cases, inl, inr,
}
use software_bus.Text.{Bytes, text_eq}
use software_bus.BaseLayer.Node.{Node}
use software_bus.BaseLayer.Node.Transfer.{OnError}
use software_bus.PubSub.Codec.{ReachabilityResult, not_found, unknown}
use software_bus.PubSub.State.{PubSub}
use software_bus.PubSub.Node.Receive.{drain_next}
use software_bus.PubSub.Check.{
  Stage, idle, acquiring, acquired, identifying, retrying, asking, accepting, ended, accepted,
  refused, lost, left_locked, Reason, own_node, known_node, unidentified, undetermined, Checks,
  State, Wake, done, late, abandoned, cancelled, go, release, is_lost, is_connected_to,
  query_result, end_query, identify, acquire, enter, abandon, cancel, conclude_query, drain_held,
  done_at, late_at, wake,
}
use software_bus.PubSub.Check.Protocol.{
  is_inside, Identified, Move, locked, enters, leaves_locked, asks_first, alone_first, asks, alone,
  retries, unreachable, drains, finishes, gives_up, lock_after, Moves,
}
use software_bus.PubSub.Check.Attempt.{moved, stopped, conclude-Moves, ask-Moves}

abbrev IfMoves : ℕ → ℕ → Checks → Node × PubSub → Option State → Type 0
IfMoves max_check_attempts c k s none = Unit
IfMoves max_check_attempts c k s (some st) = Moves max_check_attempts c k s st.0

module _ (on_error : OnError PubSub) (limit max_check_attempts : ℕ) (c : ℕ) (k : Checks)
    (s : Node × PubSub) where
  identify-Moves :
      (id : Bytes) (hello : Option (Result Bytes))
      → k.stage c ≡ identifying
      → (s.1.check c).hello ≡ hello
      → IfMoves max_check_attempts c k s
          (identify on_error limit max_check_attempts c id hello (k, s))
  unfolding identify
  identify-Moves id none at h = tt
  identify-Moves id (some (err e)) at h =
      stopped on_error limit max_check_attempts c k s at refl lost refl
  identify-Moves id (some (ok peer)) at h = elim (Bool-cases (text_eq peer s.1.node_id)) [
    | inl a ↦ simp a (stop own_node)
    | inr a ↦ elim (Bool-cases (is_connected_to peer s)) [
      | inl b ↦ simp (a, b) (stop known_node)
      | inr b ↦ elim (Bool-cases (ltb 0 max_check_attempts)) [
        | inr m ↦ simp (a, b, m) (stop undetermined)
        | inl m ↦
            let who : Identified s c peer = record { said = h; other = a; new = b } in
            simp (a, b, m)
              (ask-Moves on_error limit max_check_attempts c k s at refl peer 0 id
                (asks_first peer id who (ltb→lt _ _ m)) (alone_first peer who))
      ]
    ]
  ]
    where
      stop : (r : Reason) → Moves max_check_attempts c k s (release (go c (ended (refused r)) k))
      stop r = stopped on_error limit max_check_attempts c k s at refl (refused r) refl

  gave_up : k.stage c ≡ acquiring → Moves max_check_attempts c k s (go c (ended lost) k)
  unfolding update
  gave_up at = record {
    to = ended lost;
    move = subst (λ f. Move max_check_attempts k.lock s c f (ended lost)) (sym at) gives_up;
    stages = λ d. refl;
    lock = sym (ap (λ f. lock_after c f (ended lost) k.lock) at);
  }

  left : k.stage c ≡ acquired → Moves max_check_attempts c k s (go c (ended left_locked) k)
  unfolding update
  left at = record {
    to = ended left_locked;
    move =
        subst (λ f. Move max_check_attempts k.lock s c f (ended left_locked)) (sym at)
          leaves_locked;
    stages = λ d. refl;
    lock = sym (ap (λ f. lock_after c f (ended left_locked) k.lock) at);
  }

  acquire-Moves :
      (lock : Option ℕ)
      → k.lock ≡ lock
      → k.stage c ≡ acquiring
      → IfMoves max_check_attempts c k s (acquire on_error limit max_check_attempts c lock (k, s))
  unfolding acquire update
  acquire-Moves (some holder) free at = tt
  acquire-Moves none free at = record {
    to = acquired;
    move = subst (λ f. Move max_check_attempts k.lock s c f acquired) (sym at) (locked free);
    stages = λ d. refl;
    lock = sym (ap (λ f. lock_after c f acquired k.lock) at);
  }

  stop_lost :
      {from : Stage}
      → k.stage c ≡ from
      → is_inside from ≡ true
      → Moves max_check_attempts c k s (release (go c (ended lost) k))
  stop_lost at inside = stopped on_error limit max_check_attempts c k s at inside lost refl

  enter-Moves :
      k.stage c ≡ acquired
      → Moves max_check_attempts c k s (enter on_error limit max_check_attempts c (k, s)).0
  unfolding enter
  enter-Moves at = elim (Bool-cases (member c s.1.pending)) [
    | inr p ↦ simp p (stop_lost at refl)
    | inl p ↦
        simp p (moved on_error limit max_check_attempts c k s at refl identifying refl (enters p))
  ]

  abandon-Moves :
      (from : Stage)
      → k.stage c ≡ from
      → IfMoves max_check_attempts c k s (abandon on_error limit max_check_attempts c from (k, s))
  unfolding abandon
  abandon-Moves acquiring at = gave_up at
  abandon-Moves (retrying peer attempt) at = stop_lost at refl
  abandon-Moves (asking peer attempt id) at = stop_lost at refl
  abandon-Moves idle at = tt
  abandon-Moves acquired at = tt
  abandon-Moves identifying at = tt
  abandon-Moves accepting at = tt
  abandon-Moves (ended o) at = tt

  cancel-Moves :
      (from : Stage)
      → k.stage c ≡ from
      → IfMoves max_check_attempts c k s (cancel on_error limit max_check_attempts c from (k, s))
  unfolding cancel
  cancel-Moves acquiring at = abandon-Moves acquiring at
  cancel-Moves (retrying peer attempt) at = abandon-Moves (retrying peer attempt) at
  cancel-Moves (asking peer attempt id) at = abandon-Moves (asking peer attempt id) at
  cancel-Moves idle at = abandon-Moves idle at
  cancel-Moves acquired at = left at
  cancel-Moves identifying at = stop_lost at refl
  cancel-Moves accepting at = stop_lost at refl
  cancel-Moves (ended o) at = abandon-Moves (ended o) at

  conclude_query-Moves :
      (peer : Bytes) (attempt : ℕ) (id : Bytes) (result : Option ReachabilityResult)
      → k.stage c ≡ asking peer attempt id
      → (result ≡ some not_found → query_result id s.1.queries ≡ some not_found)
      → IfMoves max_check_attempts c k s
          (conclude_query on_error limit max_check_attempts c peer attempt id result (k, s))
  unfolding conclude_query
  conclude_query-Moves peer attempt id none at h = tt
  conclude_query-Moves peer attempt id (some r) at h =
      conclude-Moves on_error limit max_check_attempts c k s at refl peer attempt r (end_query id s)
        refl (λ e l. unreachable peer id attempt (h (ap some e)) l)
        (λ e m. retries peer id attempt m)

  drain_held-Moves :
      k.stage c ≡ accepting
      → Moves max_check_attempts c k s (drain_held on_error limit max_check_attempts c (k, s)).0
  unfolding drain_held update
  drain_held-Moves at = elim (Bool-cases (member c (drain_next on_error limit c s).1.draining)) [
    | inl d ↦ simp d (record {
      to = accepting;
      move = subst (λ f. Move max_check_attempts k.lock s c f accepting) (sym at) drains;
      stages = λ d. ground (arith, at, ==_iff c d, ap k.stage);
      lock = sym (ap (λ f. lock_after c f accepting k.lock) at);
    })
    | inr d ↦ simp d (record {
      to = ended accepted;
      move = subst (λ f. Move max_check_attempts k.lock s c f (ended accepted)) (sym at) finishes;
      stages = λ d. refl;
      lock = sym (ap (λ f. lock_after c f (ended accepted) k.lock) at);
    })
  ]

  done_at-Moves :
      (from : Stage) (id : Bytes)
      → k.stage c ≡ from
      → IfMoves max_check_attempts c k s
          (done_at on_error limit max_check_attempts from id c (k, s))
  unfolding done_at
  done_at-Moves idle id at = tt
  done_at-Moves acquiring id at = acquire-Moves k.lock refl at
  done_at-Moves acquired id at = enter-Moves at
  done_at-Moves identifying id at = identify-Moves id (s.1.check c).hello at refl
  done_at-Moves (retrying peer attempt) id at =
      ask-Moves on_error limit max_check_attempts c k s at refl peer attempt id
        (asks peer id attempt) (alone peer attempt)
  done_at-Moves (asking peer attempt asked) id at =
      conclude_query-Moves peer attempt asked (query_result asked s.1.queries) at (λ e. e)
  done_at-Moves accepting id at = drain_held-Moves at
  done_at-Moves (ended o) id at = tt

  late_at-Moves :
      (from : Stage)
      → k.stage c ≡ from
      → IfMoves max_check_attempts c k s (late_at on_error limit max_check_attempts from c (k, s))
  unfolding late_at
  late_at-Moves identifying at =
      stopped on_error limit max_check_attempts c k s at refl (refused unidentified) refl
  late_at-Moves (asking peer attempt asked) at =
      conclude_query-Moves peer attempt asked (some unknown) at (λ e. absurd (ground (arith, e)))
  late_at-Moves idle at = tt
  late_at-Moves acquiring at = tt
  late_at-Moves acquired at = tt
  late_at-Moves (retrying peer attempt) at = tt
  late_at-Moves accepting at = tt
  late_at-Moves (ended o) at = tt

  wake-IfMoves :
      (event : Wake)
      → IfMoves max_check_attempts c k s (wake on_error limit max_check_attempts event c (k, s))
  unfolding wake
  wake-IfMoves (done id) = done_at-Moves (k.stage c) id refl
  wake-IfMoves late = late_at-Moves (k.stage c) refl
  wake-IfMoves cancelled = cancel-Moves (k.stage c) refl
  wake-IfMoves abandoned = elim (Bool-cases (is_lost c s.1)) [
    | inl l ↦ simp l (abandon-Moves (k.stage c) refl)
    | inr l ↦ simp l tt
  ]

  -- Whenever a check goes on, or the task with which it waits for the lock ends, it makes a move of the
  -- protocol, and no other check moves. So that task ends only where the lock is free, and takes it,
  -- and the check then goes on only if its connection is still pending; it first asks about a peer that
  -- has said who it is and is neither this node nor connected already, and asks again only while it
  -- has attempts left; it accepts a connection only if it is not lost, after a query whose replies come
  -- to `not_found` or where there is nobody to ask; and when it ends past its wait, the lock is free,
  -- except where it is cancelled after that task has taken the lock and before it goes on itself: then
  -- the lock stays held.
  pub wake-Moves :
      (event : Wake) (st : State)
      → wake on_error limit max_check_attempts event c (k, s) ≡ some st
      → Moves max_check_attempts c k s st.0
  wake-Moves event st e = subst (IfMoves max_check_attempts c k s) e (wake-IfMoves event)
