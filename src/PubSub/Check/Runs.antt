-- ===== src/PubSub/Check/Runs.antt =====
-- Runs of the cycle checks of a node (software_bus/pubsub.py): checks begin and go on, in any order,
-- and between that the rest of the node does whatever it does.
use software_bus.Prelude.{
  ℕ, ◌≡◌, refl, sym, ap, arith, ◌∙◌, ◌==◌, ==_iff, Bool, true, false, if◌then◌else◌, Option, none,
  some, update, member, Bool-cases, inl, inr,
}
use software_bus.BaseLayer.Node.{Node}
use software_bus.BaseLayer.Node.Transfer.{OnError, establish_connection}
use software_bus.PubSub.Node.Receive.{on_new_connection}
use software_bus.PubSub.State.{PubSub}
use software_bus.PubSub.Check.{
  Stage, idle, ended, Outcome, accepted, refused, lost, left_locked, acquiring, acquired,
  identifying, retrying, asking, accepting, Checks, no_checks, State, Wake, wake, start_check,
  begin_check,
}
use software_bus.PubSub.Check.Protocol.{
  is_inside, has_lock, frees, Move, locked, enters, leaves_locked, asks_first, alone_first, asks,
  alone, retries, unreachable, drains, finishes, gives_up, stops, lock_after, Moves,
}
use software_bus.PubSub.Check.Attempt.{lock_ended}
use software_bus.PubSub.Check.Follows.{wake-Moves}

abbrev pub holds : Option ℕ → ℕ → Bool
holds none c = false
holds (some d) c = d == c

-- The check that has the lock, or has left it held, is that of its holder.
abbrev pub Exclusive : Checks → Type 0
Exclusive k = (c : ℕ) → has_lock (k.stage c) ≡ holds k.lock c

-- What a move makes of the lock, seen from `d`.
holds_same :
    (b : Bool) (c d : ℕ) (lock : Option ℕ)
    → b ≡ holds lock c
    → holds lock d ≡ (if c == d then b else holds lock d)
holds_same b c d lock h = ground (arith, h, ==_iff c d, ap (holds lock))

holds_freed :
    (c d : ℕ) (lock : Option ℕ)
    → true ≡ holds lock c
    → false ≡ (if c == d then false else holds lock d)
holds_freed c d none h = absurd (ground (arith, h))
holds_freed c d (some holder) h = ground (arith, h, ==_iff holder c, ==_iff holder d)

has_lock-inside : (x : Stage) → is_inside x ≡ true → has_lock x ≡ true
has_lock-inside idle i = i
has_lock-inside acquiring i = i
has_lock-inside acquired i = i
has_lock-inside identifying i = i
has_lock-inside (retrying peer attempt) i = i
has_lock-inside (asking peer attempt id) i = i
has_lock-inside accepting i = i
has_lock-inside (ended o) i = absurd (ground (arith, i))

has_lock-frees : (o : Outcome) → frees o ≡ true → has_lock (ended o) ≡ false
has_lock-frees accepted f = refl
has_lock-frees (refused reason) f = refl
has_lock-frees lost f = refl
has_lock-frees left_locked f = absurd (ground (arith, f))

holds-lock_after :
    {max_check_attempts c : ℕ} {lock : Option ℕ} {s : Node × PubSub} {from to : Stage} (d : ℕ)
    → Move max_check_attempts lock s c from to
    → has_lock from ≡ holds lock c
    → holds (lock_after c from to lock) d ≡ (if c == d then has_lock to else holds lock d)
holds-lock_after {c} d (locked free) h = ground (arith, ap (λ l. holds l d) free)
holds-lock_after {c} {lock} d (enters p) h = holds_same true c d lock h
holds-lock_after {c} {lock} d leaves_locked h = holds_same true c d lock h
holds-lock_after {c} {lock} d (asks_first peer id who m) h = holds_same true c d lock h
holds-lock_after {c} {lock} d (alone_first peer who n l) h = holds_same true c d lock h
holds-lock_after {c} {lock} d (asks peer id attempt) h = holds_same true c d lock h
holds-lock_after {c} {lock} d (alone peer attempt n l) h = holds_same true c d lock h
holds-lock_after {c} {lock} d (retries peer id attempt m) h = holds_same true c d lock h
holds-lock_after {c} {lock} d (unreachable peer id attempt q l) h = holds_same true c d lock h
holds-lock_after {c} {lock} d drains h = holds_same true c d lock h
holds-lock_after {c} {lock} d finishes h = holds_freed c d lock h
holds-lock_after {c} {lock} d gives_up h = holds_same false c d lock h
holds-lock_after {c} {lock} d (stops {from} o i n) h =
    ap (λ l. holds l d) (lock_ended c from o lock i n)
    ∙ holds_freed c d lock (sym (has_lock-inside from i) ∙ h)
    ∙ ap (λ b. if c == d then b else holds lock d) (sym (has_lock-frees o n))

Exclusive-Moves :
    {max_check_attempts c : ℕ} {s : Node × PubSub} (k k' : Checks)
    → Moves max_check_attempts c k s k'
    → Exclusive k
    → Exclusive k'
Exclusive-Moves {c} k k' m h d =
    ground (arith, m.stages d, h d, holds-lock_after d m.move (h c), ap (λ l. holds l d) m.lock)

module _ (on_error : OnError PubSub) (limit max_check_attempts : ℕ) where
  pub data Step : State → State → Type 0 where
    begins :
        {st : State} (c : ℕ)
        → st.0.stage c ≡ idle
        → Step st (begin_check on_error limit max_check_attempts c st)
    wakes :
        {st st' : State} (event : Wake) (c : ℕ)
        → wake on_error limit max_check_attempts event c st ≡ some st'
        → Step st st'
    others : {k : Checks} {s : Node × PubSub} (t : Node × PubSub) → Step (k, s) (k, t)

  pub data Reach (st : State) : State → Type 0 where
    here : Reach st st
    onward : {st' st'' : State} → Reach st st' → Step st' st'' → Reach st st''

  start-Exclusive :
      (c : ℕ) (k : Checks) (s : Node × PubSub)
      → k.stage c ≡ idle
      → Exclusive k
      → Exclusive (start_check on_error limit max_check_attempts c (k, s)).0
  unfolding start_check update
  start-Exclusive c k s e h d = elim (Bool-cases (member c s.1.pending)) [
    | inl p ↦ simp p (freed acquiring refl)
    | inr p ↦ simp p (freed (ended lost) refl)
  ]
    where
      freed : (x : Stage) → has_lock x ≡ false → has_lock (update k.stage c x d) ≡ holds k.lock d
      freed x f =
          unfold update in
          ground (
            arith,
            f,
            h d,
            h c,
            ap has_lock e,
            ==_iff c d,
            ap (λ y. has_lock (k.stage y)),
            ap (holds k.lock),
          )

  begin-Exclusive :
      (c : ℕ) (st : State)
      → st.0.stage c ≡ idle
      → Exclusive st.0
      → Exclusive (begin_check on_error limit max_check_attempts c st).0
  unfolding begin_check
  begin-Exclusive c (k, s) e h = elim (Bool-cases s.0.is_closed) [
    | inl a ↦ simp a h
    | inr a ↦
        simp a
          (start-Exclusive c k (establish_connection (on_new_connection on_error limit) c s).1 e h)
  ]

  Step-Exclusive : {st st' : State} → Step st st' → Exclusive st.0 → Exclusive st'.0
  Step-Exclusive (begins {st} c e) h = begin-Exclusive c st e h
  Step-Exclusive (wakes {st} {st'} event c e) h =
      Exclusive-Moves st.0 st'.0
        (wake-Moves on_error limit max_check_attempts c st.0 st.1 event st' e) h
  Step-Exclusive (others {k} t) h = h

  reached : {st st' : State} → Reach st st' → Exclusive st.0 → Exclusive st'.0
  reached here h = h
  reached (onward r step) h = Step-Exclusive step (reached r h)

  -- Whatever the rest of the node does meanwhile, the lock is held exactly by a check that is under way
  -- past its wait for the lock, or by one that was cancelled after its task had taken the lock and
  -- before it went on itself. So while the lock is free no check is past its wait, there are never two
  -- at once, and there is none once a cancelled one has left the lock held.
  pub Reach-Exclusive : (s : Node × PubSub) {st : State} → Reach (no_checks, s) st → Exclusive st.0
  Reach-Exclusive s r = reached r (λ c. refl)
