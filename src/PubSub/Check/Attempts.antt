-- ===== src/PubSub/Check/Attempts.antt =====
-- How long a cycle check (software_bus/pubsub.py) may go on, and that none is stuck.
use software_bus.Prelude.{
  ℕ, ◌+◌, ◌-◌, ◌*◌, ◌≤◌, ◌≡◌, refl, ap, arith, ◌∙◌, ◌==◌, ==_iff, ==_refl, ◌&&◌, Bool, true, false,
  if◌then◌else◌, Option, none, some, member, update, Bool-cases, inl, inr, ◌⊎◌,
}
use software_bus.Text.{Bytes}
use software_bus.BaseLayer.Node.{Node}
use software_bus.BaseLayer.Node.Transfer.{OnError, establish_connection}
use software_bus.PubSub.Node.Receive.{on_new_connection}
use software_bus.PubSub.Codec.{unknown}
use software_bus.PubSub.State.{PubSub}
use software_bus.PubSub.Check.{
  Stage, idle, acquiring, acquired, identifying, retrying, asking, accepting, ended, Outcome,
  accepted, refused, lost, left_locked, Checks, no_checks, State, Wake, done, late, go, wake,
  begin_check, start_check, conclude_query, late_at, done_at, refuse, unidentified, ask, conclude,
  end_query, drain_held, acquire, enter,
}
use software_bus.PubSub.Check.Protocol.{
  is_inside, has_lock, Move, locked, enters, leaves_locked, asks_first, alone_first, asks, alone,
  retries, unreachable, drains, finishes, gives_up, stops,
}
use software_bus.PubSub.Check.Follows.{wake-Moves}
use software_bus.PubSub.Check.Runs.{
  holds, Exclusive, begins, wakes, others, Reach, here, onward, Reach-Exclusive,
}

-- A check that has begun and has not ended.
abbrev pub is_unfinished : Stage → Bool
is_unfinished idle = false
is_unfinished (ended o) = false
is_unfinished stage = true

-- How many times a check may still go on before its connection is accepted or it ends.
abbrev pub rank : ℕ → Stage → ℕ
rank m idle = 2 * m + 4
rank m acquiring = 2 * m + 4
rank m acquired = 2 * m + 4
rank m identifying = 2 * m + 3
rank m (retrying peer attempt) = 2 * (m - attempt) + 3
rank m (asking peer attempt id) = 2 * (m - attempt) + 2
rank m accepting = 1
rank m (ended o) = 0

-- From one stage to the next, the check itself has gone on, and not only the task with which it waits for
-- the lock, and it was not draining.
abbrev pub is_counted : Stage → Stage → Bool
is_counted acquiring acquired = false
is_counted accepting to = false
is_counted from to = true

rank-inside :
    (m : ℕ) (x : Stage) (o : Outcome)
    → is_inside x ≡ true
    → (if is_counted x (ended o) then 1 else 0) + 0 ≤ rank m x
rank-inside m idle o i = omega arith
rank-inside m acquiring o i = omega arith
rank-inside m acquired o i = omega arith
rank-inside m identifying o i = omega arith
rank-inside m (retrying peer attempt) o i = omega arith
rank-inside m (asking peer attempt id) o i = omega arith
rank-inside m accepting o i = omega arith
rank-inside m (ended o) p i = absurd (ground (arith, i))

rank-Move :
    {max_check_attempts c : ℕ} {lock : Option ℕ} {s : Node × PubSub} {from to : Stage}
    → Move max_check_attempts lock s c from to
    → (if is_counted from to then 1 else 0) + rank max_check_attempts to
      ≤ rank max_check_attempts from
rank-Move (locked free) = omega arith
rank-Move (enters p) = omega arith
rank-Move leaves_locked = omega arith
rank-Move (asks_first peer id who m) = omega arith
rank-Move (alone_first peer who n l) = omega arith
rank-Move (asks peer id attempt) = omega arith
rank-Move (alone peer attempt n l) = omega arith
rank-Move (retries peer id attempt m) = omega (arith, m)
rank-Move (unreachable peer id attempt q l) = omega arith
rank-Move drains = omega arith
rank-Move finishes = omega arith
rank-Move gives_up = omega arith
rank-Move {max_check_attempts} (stops {from} o i n) = rank-inside max_check_attempts from o i

module _ (on_error : OnError PubSub) (limit max_check_attempts : ℕ) (c : ℕ) where
  -- How many times the check of `c` has gone on in a run, its draining left aside. That the task with
  -- which it waits for the lock ends is not counted: the check goes on after that.
  abbrev pub turns : {st st' : State} → Reach on_error limit max_check_attempts st st' → ℕ
  turns here = 0
  turns (onward r (begins d e)) = turns r
  turns (onward r (others t)) = turns r
  turns (onward r (wakes {st} {st'} event d e)) =
      (if d == c && is_counted (st.0.stage c) (st'.0.stage c) then 1 else 0) + turns r

  wake-rank :
      (event : Wake) (d : ℕ) (st st' : State)
      → wake on_error limit max_check_attempts event d st ≡ some st'
      → (if d == c && is_counted (st.0.stage c) (st'.0.stage c) then 1 else 0)
          + rank max_check_attempts (st'.0.stage c)
        ≤ rank max_check_attempts (st.0.stage c)
  wake-rank event d st st' e =
      let m = wake-Moves on_error limit max_check_attempts d st.0 st.1 event st' e in
      elim (Bool-cases (d == c)) [
        | inr h ↦ ground (arith, h, m.stages c)
        | inl h ↦
            let same = (==_iff d c).0 h in
            let to : st'.0.stage c ≡ m.to = m.stages c ∙ simp h refl in
            ground (
              arith,
              h,
              rank-Move m.move,
              ap (rank max_check_attempts) to,
              ap (λ x. rank max_check_attempts (st.0.stage x)) same,
              ap (is_counted (st.0.stage c)) to,
              ap (λ x. is_counted (st.0.stage x) m.to) same,
            )
      ]

  start-rank :
      (d : ℕ) (k : Checks) (s : Node × PubSub)
      → k.stage d ≡ idle
      → rank max_check_attempts ((start_check on_error limit max_check_attempts d (k, s)).0.stage c)
        ≤ rank max_check_attempts (k.stage c)
  unfolding start_check
  start-rank d k s e = elim (Bool-cases (member d s.1.pending)) [
    | inl p ↦ simp p (below acquiring (omega arith))
    | inr p ↦ simp p (below (ended lost) (omega arith))
  ]
    where
      below :
          (x : Stage)
          → rank max_check_attempts x ≤ 2 * max_check_attempts + 4
          → rank max_check_attempts (update k.stage d x c) ≤ rank max_check_attempts (k.stage c)
      below x b =
          unfold update in
          ground (
            arith,
            b,
            ==_iff d c,
            ap (rank max_check_attempts) e,
            ap (λ y. rank max_check_attempts (k.stage y)),
          )

  begin-rank :
      (d : ℕ) (st : State)
      → st.0.stage d ≡ idle
      → rank max_check_attempts ((begin_check on_error limit max_check_attempts d st).0.stage c)
        ≤ rank max_check_attempts (st.0.stage c)
  unfolding begin_check
  begin-rank d (k, s) e = elim (Bool-cases s.0.is_closed) [
    | inl a ↦ simp a (omega arith)
    | inr a ↦
        simp a (start-rank d k (establish_connection (on_new_connection on_error limit) d s).1 e)
  ]

  turns-rank :
      {st st' : State} (r : Reach on_error limit max_check_attempts st st')
      → turns r + rank max_check_attempts (st'.0.stage c) ≤ rank max_check_attempts (st.0.stage c)
  turns-rank here = omega arith
  turns-rank (onward r (begins {st} d e)) = omega (arith, turns-rank r, begin-rank d st e)
  turns-rank (onward r (others t)) = turns-rank r
  turns-rank (onward r (wakes {st} {st'} event d e)) =
      omega (arith, turns-rank r, wake-rank event d st st' e)

  -- However replies, losses and other checks are interleaved, the check of a connection goes on at
  -- most 2 * max_check_attempts + 4 times before the connection is accepted or the check ends.
  pub turns-le :
      (s : Node × PubSub) {st : State}
      (r : Reach on_error limit max_check_attempts (no_checks, s) st)
      → turns r ≤ 2 * max_check_attempts + 4
  turns-le s r = omega (arith, turns-rank r)

module _ (on_error : OnError PubSub) (limit max_check_attempts : ℕ) where
  -- A check that is under the lock can go on without any reply.
  inside-wake :
      (id : Bytes) (c : ℕ) (k : Checks) (s : Node × PubSub) (from : Stage)
      → k.stage c ≡ from
      → is_inside from ≡ true
      → (st : State) × ((wake on_error limit max_check_attempts late c (k, s) ≡ some st)
          ⊎ (wake on_error limit max_check_attempts (done id) c (k, s) ≡ some st))
  unfolding wake late_at done_at conclude_query
  inside-wake id c k s idle e i = absurd (ground (arith, i))
  inside-wake id c k s acquiring e i = absurd (ground (arith, i))
  inside-wake id c k s (ended o) e i = absurd (ground (arith, i))
  inside-wake id c k s acquired e i =
      (enter on_error limit max_check_attempts c (k, s), inr (simp e refl))
  inside-wake id c k s identifying e i =
      (refuse on_error limit max_check_attempts c unidentified (k, s), inl (simp e refl))
  inside-wake id c k s (retrying peer attempt) e i =
      (ask on_error limit max_check_attempts c peer attempt id (k, s), inr (simp e refl))
  inside-wake id c k s (asking peer attempt asked) e i = (
    conclude on_error limit max_check_attempts c peer attempt unknown (k, end_query asked s),
    inl (simp e refl),
  )
  inside-wake id c k s accepting e i =
      (drain_held on_error limit max_check_attempts c (k, s), inr (simp e refl))

  -- A check can go on, or one has left the lock held.
  abbrev pub CanWake : Bytes → State → Type 0
  CanWake id st =
      ((d : ℕ) × (st' : State) × ((wake on_error limit max_check_attempts late d st ≡ some st')
          ⊎ (wake on_error limit max_check_attempts (done id) d st ≡ some st')))
      ⊎ ((d : ℕ) × (st.0.stage d ≡ ended left_locked))

  holding-wake :
      (id : Bytes) (c : ℕ) (k : Checks) (s : Node × PubSub) (from : Stage)
      → k.stage c ≡ from
      → has_lock from ≡ true
      → CanWake id (k, s)
  holding-wake id c k s (ended left_locked) e h = inr (c, e)
  holding-wake id c k s (ended accepted) e h = absurd (ground (arith, h))
  holding-wake id c k s (ended (refused r)) e h = absurd (ground (arith, h))
  holding-wake id c k s (ended lost) e h = absurd (ground (arith, h))
  holding-wake id c k s idle e h = absurd (ground (arith, h))
  holding-wake id c k s acquiring e h = absurd (ground (arith, h))
  holding-wake id c k s acquired e h =
      let (st, w) = inside-wake id c k s acquired e refl in inl (c, st, w)
  holding-wake id c k s identifying e h =
      let (st, w) = inside-wake id c k s identifying e refl in inl (c, st, w)
  holding-wake id c k s (retrying peer attempt) e h =
      let (st, w) = inside-wake id c k s (retrying peer attempt) e refl in inl (c, st, w)
  holding-wake id c k s (asking peer attempt asked) e h =
      let (st, w) = inside-wake id c k s (asking peer attempt asked) e refl in inl (c, st, w)
  holding-wake id c k s accepting e h =
      let (st, w) = inside-wake id c k s accepting e refl in inl (c, st, w)

  waiting-wake :
      (id : Bytes) (c : ℕ) (k : Checks) (s : Node × PubSub) (lock : Option ℕ) (from : Stage)
      → Exclusive k
      → k.lock ≡ lock
      → k.stage c ≡ from
      → is_unfinished from ≡ true
      → CanWake id (k, s)
  unfolding wake done_at acquire
  waiting-wake id c k s none acquiring x l e u =
      inl (c, (record (go c acquired k) { lock = some c }, s), inr (simp (e, l) refl))
  waiting-wake id c k s (some holder) acquiring x l e u =
      holding-wake id holder k s (k.stage holder) refl
        (x holder ∙ ap (λ o. holds o holder) l ∙ ==_refl holder)
  waiting-wake id c k s lock idle x l e u = absurd (ground (arith, u))
  waiting-wake id c k s lock (ended o) x l e u = absurd (ground (arith, u))
  waiting-wake id c k s lock acquired x l e u = holding-wake id c k s acquired e refl
  waiting-wake id c k s lock identifying x l e u = holding-wake id c k s identifying e refl
  waiting-wake id c k s lock (retrying peer attempt) x l e u =
      holding-wake id c k s (retrying peer attempt) e refl
  waiting-wake id c k s lock (asking peer attempt asked) x l e u =
      holding-wake id c k s (asking peer attempt asked) e refl
  waiting-wake id c k s lock accepting x l e u = holding-wake id c k s accepting e refl

  -- While a check is unfinished, some check of the node can go on, by the end of its timeout or of its
  -- await, or else one was cancelled after its task had taken the lock and before it went on itself,
  -- and has left the lock held. No run without such a cancel comes to a state in which the checks wait
  -- for each other.
  pub Reach-wake :
      (id : Bytes) (c : ℕ) (s : Node × PubSub) {st : State}
      → Reach on_error limit max_check_attempts (no_checks, s) st
      → is_unfinished (st.0.stage c) ≡ true
      → ((d : ℕ) × (st' : State) × ((wake on_error limit max_check_attempts late d st ≡ some st')
            ⊎ (wake on_error limit max_check_attempts (done id) d st ≡ some st')))
        ⊎ ((d : ℕ) × (st.0.stage d ≡ ended left_locked))
  Reach-wake id c s {st} r u =
      waiting-wake id c st.0 st.1 st.0.lock (st.0.stage c)
        (Reach-Exclusive on_error limit max_check_attempts s r) refl refl u
