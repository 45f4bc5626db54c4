-- ===== src/PubSub/Check/Attempt.antt =====
-- One attempt of the cycle check (software_bus/pubsub.py), and how checks stop.
use software_bus.Prelude.{
  ℕ, suc, ◌<◌, ◌≡◌, refl, sym, ap, subst, ◌∙◌, arith, ltb, ltb→lt, true, false, Option, none, List,
  [], ◌∷◌, member, update, Bool-cases, inl, inr,
}
use software_bus.Text.{Bytes}
use software_bus.BaseLayer.Node.{Node}
use software_bus.BaseLayer.Node.Transfer.{OnError}
use software_bus.PubSub.Codec.{ReachabilityResult, found, not_found, unknown}
use software_bus.PubSub.State.{PubSub}
use software_bus.PubSub.Node.Receive.{active_node_connections}
use software_bus.PubSub.Check.{
  Stage, idle, acquiring, acquired, identifying, retrying, asking, accepting, ended, Outcome,
  accepted, refused, lost, left_locked, undetermined, cycle, Checks, go, release, is_lost, conclude,
  ask_query, ask,
}
use software_bus.PubSub.Check.Protocol.{is_inside, frees, Move, stops, lock_after, Moves}

pub lock_ended :
    (c : ℕ) (from : Stage) (o : Outcome) (lock : Option ℕ)
    → is_inside from ≡ true
    → frees o ≡ true
    → lock_after c from (ended o) lock ≡ none
lock_ended c idle o lock h f = absurd (ground (arith, h))
lock_ended c acquiring o lock h f = absurd (ground (arith, h))
lock_ended c acquired accepted lock h f = absurd (ground (arith, f))
lock_ended c acquired (refused r) lock h f = refl
lock_ended c acquired lost lock h f = refl
lock_ended c acquired left_locked lock h f = absurd (ground (arith, f))
lock_ended c identifying o lock h f = refl
lock_ended c (retrying p a) o lock h f = refl
lock_ended c (asking p a i) o lock h f = refl
lock_ended c accepting o lock h f = refl
lock_ended c (ended p) o lock h f = refl

lock_kept :
    (c : ℕ) (from to : Stage) (lock : Option ℕ)
    → is_inside from ≡ true
    → is_inside to ≡ true
    → lock_after c from to lock ≡ lock
lock_kept c idle to lock h i = absurd (ground (arith, h))
lock_kept c acquiring to lock h i = absurd (ground (arith, h))
lock_kept c (ended p) to lock h i = absurd (ground (arith, h))
lock_kept c acquired to lock h i = ground (arith, i)
lock_kept c identifying to lock h i = ground (arith, i)
lock_kept c (retrying p a) to lock h i = ground (arith, i)
lock_kept c (asking p a d) to lock h i = ground (arith, i)
lock_kept c accepting to lock h i = ground (arith, i)

module _ (on_error : OnError PubSub) (limit max_check_attempts : ℕ) (c : ℕ) (k : Checks)
    (s : Node × PubSub) {from : Stage} (at : k.stage c ≡ from)
    (inside : is_inside from ≡ true) where
  pub moved :
      (to : Stage)
      → is_inside to ≡ true
      → Move max_check_attempts k.lock s c from to
      → Moves max_check_attempts c k s (go c to k)
  unfolding update
  moved to i m = record {
    to = to;
    move = subst (λ f. Move max_check_attempts k.lock s c f to) (sym at) m;
    stages = λ d. refl;
    lock = sym (ap (λ f. lock_after c f to k.lock) at ∙ lock_kept c from to k.lock inside i);
  }

  pub stopped :
      (o : Outcome) → frees o ≡ true → Moves max_check_attempts c k s (release (go c (ended o) k))
  unfolding update
  stopped o n = record {
    to = ended o;
    move = stops o (ap is_inside at ∙ inside) n;
    stages = λ d. refl;
    lock = sym (ap (λ f. lock_after c f (ended o) k.lock) at ∙ lock_ended c from o k.lock inside n);
  }

  pub conclude-Moves :
      (peer : Bytes) (attempt : ℕ) (result : ReachabilityResult) (t : Node × PubSub)
      → is_lost c t.1 ≡ is_lost c s.1
      → (result ≡ not_found
          → is_lost c s.1 ≡ false
          → Move max_check_attempts k.lock s c from accepting)
      → (result ≡ unknown
          → suc attempt < max_check_attempts
          → Move max_check_attempts k.lock s c from (retrying peer (suc attempt)))
      → Moves max_check_attempts c k s
          (conclude on_error limit max_check_attempts c peer attempt result (k, t)).0
  unfolding conclude
  conclude-Moves peer attempt found t same acc ret = elim (Bool-cases (is_lost c t.1)) [
    | inl l ↦ simp l (stopped lost refl)
    | inr l ↦ simp l (stopped (refused cycle) refl)
  ]
  conclude-Moves peer attempt not_found t same acc ret = elim (Bool-cases (is_lost c t.1)) [
    | inl l ↦ simp l (stopped lost refl)
    | inr l ↦ simp l (moved accepting refl (acc refl (sym same ∙ l)))
  ]
  conclude-Moves peer attempt unknown t same acc ret = elim (Bool-cases (is_lost c t.1)) [
    | inl l ↦ simp l (stopped lost refl)
    | inr l ↦ elim (Bool-cases (ltb (suc attempt) max_check_attempts)) [
      | inl m ↦ simp (l, m) (moved (retrying peer (suc attempt)) refl (ret refl (ltb→lt _ _ m)))
      | inr m ↦ simp (l, m) (stopped (refused undetermined) refl)
    ]
  ]

  -- An attempt: a query is asked, or there is nobody to ask.
  pub ask-Moves :
      (peer : Bytes) (attempt : ℕ) (id : Bytes)
      → Move max_check_attempts k.lock s c from (asking peer attempt id)
      → (active_node_connections s ≡ []
          → is_lost c s.1 ≡ false
          → Move max_check_attempts k.lock s c from accepting)
      → Moves max_check_attempts c k s
          (ask on_error limit max_check_attempts c peer attempt id (k, s)).0
  unfolding ask
  ask-Moves peer attempt id next acc = elim (Bool-cases (member c s.1.pending)) [
    | inr p ↦ simp p (stopped lost refl)
    | inl p ↦ simp p (to_targets (active_node_connections s) refl)
  ]
    where
      to_targets :
          (targets : List ℕ)
          → active_node_connections s ≡ targets
          → Moves max_check_attempts c k s
              (ask_query on_error limit max_check_attempts c peer attempt id targets (k, s)).0
      to_targets [] e =
          unfold ask_query in
          conclude-Moves peer attempt not_found s refl (λ r l. acc e l)
            (λ r. absurd (ground (arith, r)))
      to_targets (d ∷ targets) e = unfold ask_query in moved (asking peer attempt id) refl next
