-- ===== src/PubSub/Node/Runs.antt =====
-- Runs of `PubSubNode` (software_bus/pubsub.py) on its base layer node (software_bus/base_layer.py):
-- every order of received data, new and failed connections, and progress of what runs in tasks.
use software_bus.Prelude.{
  ℕ, ◌≡◌, refl, Bool, true, false, none, some, List, [], member, Bool-cases, inl, inr, Error,
}
use software_bus.Text.{Bytes}
use software_bus.BaseLayer.Node.{
  SendTask, stopped, running, Node, new_node, start_connection, close_connection,
}
use software_bus.BaseLayer.Node.Transfer.{
  OnError, OnNew, establish_connection, on_downstream_connected, send_failed,
}
use software_bus.BaseLayer.Node.Queues.{
  Queues, close_connection-Queues, close-Queues, start_connection-Queues,
}
use software_bus.BaseLayer.Node.Runs as Base
use software_bus.PubSub.Codec.{ReachabilityResult, reachability_query}
use software_bus.PubSub.State.{PubSub, new_pub_sub, forget_connection}
use software_bus.PubSub.Node.{error_callback, drop_connection, close_one_connection}
use software_bus.PubSub.Node.Receive.{
  on_new_connection, on_receive, activate, drain_next, begin_collect, end_forward, close_node,
}
use software_bus.PubSub.Node.Kept.{
  handle-Kept, send_to-Kept, relay_to-Kept, drop_connection-Kept, error_callback-Kept,
}
use software_bus.PubSub.Node.Handled.{
  Handled, on_new_connection-Handled, on_receive-Handled, activate-Handled, drain_next-Handled,
  end_forward-Handled,
}
use software_bus.PubSub.Node.Sound.{Sound, Tables, Sound-Kept, add-Tables, forget-Tables}

Queues-Handled : (limit : ℕ) → Handled limit (λ s. Queues limit s.0)
Queues-Handled limit = record {
  kept = record {
    queue =
        λ c bytes n u h q. ((Sound-Kept limit).queue c bytes n (new_pub_sub []) h (q, (tt, tt))).0;
    shut = λ c n u q. ((Sound-Kept limit).shut c n (new_pub_sub []) (q, (tt, tt))).0;
    unlist = λ up c n u q. ((Sound-Kept limit).unlist up c n (new_pub_sub []) (q, (tt, tt))).0;
    discard = λ up subject c n u q. q;
    forget = λ c e n u q. q;
  };
  tables = λ n u v d t q. q;
  added = λ up subject c n u q. q;
}

Sound-Handled : (limit : ℕ) → Handled limit (Sound limit)
Sound-Handled limit = record {
  kept = Sound-Kept limit;
  tables = λ n u v d t (q, h). (q, simp (d, t) h);
  added = λ up subject c n u (q, h). (q, add-Tables up subject c u h);
}

module _ (limit held_limit : ℕ) where
  abbrev on_error : OnError PubSub
  on_error = error_callback limit

  abbrev on_new : OnNew PubSub
  on_new = on_new_connection on_error limit

  -- The callbacks of the pub/sub node are what the base layer asks of the layer above it.
  callbacks-Keeps : Base.Keeps on_error on_new limit
  callbacks-Keeps = record {
    errors = error_callback-Kept (Queues-Handled limit).kept;
    news =
        on_new_connection-Handled (Queues-Handled limit) on_error
          (error_callback-Kept (Queues-Handled limit).kept);
  }

  pub data Step : Node × PubSub → Node × PubSub → Type 0 where
    base : {s t : Node × PubSub} → Base.Step on_error on_new limit s t → Step s t
    receive :
        {s : Node × PubSub} (up : Bool) (source : ℕ) (bytes : Bytes)
        → Step s (on_receive on_error limit held_limit up source bytes s)
    accepted : {s : Node × PubSub} (c : ℕ) → Step s (activate on_error limit c s)
    drained : {s : Node × PubSub} (c : ℕ) → Step s (drain_next on_error limit c s)
    collects :
        {s : Node × PubSub} (targets : List ℕ) (id target : Bytes)
        → Step s (begin_collect on_error limit targets id target s)
    combined :
        {s : Node × PubSub} (source : ℕ) (id : Bytes) (r : ReachabilityResult)
        → Step s (end_forward on_error limit source id r s)
    close_one : {s : Node × PubSub} (c : ℕ) → Step s (close_one_connection on_error limit c s)
    close_all : {s : Node × PubSub} → Step s (close_node s)

  pub data Reach (s : Node × PubSub) : Node × PubSub → Type 0 where
    here : Reach s s
    then_step : {t v : Node × PubSub} → Reach s t → Step t v → Reach s v

  errors-Sound :
      (up : Bool) (c : ℕ) (e : Error) (s : Node × PubSub)
      → Sound limit s
      → Sound limit (on_error up c e s)
  errors-Sound = error_callback-Kept (Sound-Kept limit)

  new-Tables :
      (up : Bool) (c : ℕ) (n : Node) (u : PubSub)
      → Sound limit (n, u)
      → Tables (on_new up c (start_connection up c n, u)).1
  new-Tables up c n u (q, t) =
      (on_new_connection-Handled (Sound-Handled limit) on_error errors-Sound up c
        (start_connection up c n, u) (start_connection-Queues limit up c n q, t)).1

  unsent-Tables :
      (c : ℕ) (e : Error) (s : Node × PubSub)
      → Sound limit s
      → Tables (send_failed on_error c e s).1
  unfolding send_failed
  unsent-Tables c e (n, u) h = by_task (n.connection c).send_task refl
    where
      by_task :
          (task : SendTask)
          → (n.connection c).send_task ≡ task
          → Tables (send_failed on_error c e (n, u)).1
      by_task stopped t = rw (t, send_failed) h.1
      by_task (running none) t = rw (t, send_failed) h.1
      by_task (running (some b)) t =
          rw (t, send_failed)
            (handle-Kept (Sound-Kept limit) on_error errors-Sound _ c e (n, u) h).1

  base-Tables :
      {s t : Node × PubSub} → Base.Step on_error on_new limit s t → Sound limit s → Tables t.1
  unfolding establish_connection on_downstream_connected
  base-Tables (Base.accept host port bound) h = h.1
  base-Tables (Base.establish {s} c) h = elim (Bool-cases s.0.is_closed) [
    | inl a ↦ simp a h.1
    | inr a ↦ simp a (new-Tables true c s.0 s.1 h)
  ]
  base-Tables (Base.downstream {s} c) h = elim (Bool-cases s.0.is_closed) [
    | inl a ↦ simp a h.1
    | inr a ↦ simp a (new-Tables false c s.0 s.1 h)
  ]
  base-Tables (Base.relay {s} targets bytes) h =
      (relay_to-Kept (Sound-Kept limit) on_error errors-Sound targets bytes s h).1
  base-Tables (Base.fail {s} up c e) h =
      (handle-Kept (Sound-Kept limit) on_error errors-Sound up c e s h).1
  base-Tables (Base.next c) h = h.1
  base-Tables (Base.sent c) h = h.1
  base-Tables (Base.unsent {s} c e k) h = unsent-Tables c e s h
  base-Tables (Base.close_one c) h = h.1
  base-Tables Base.close_all h = h.1

  close_one-Sound :
      (c : ℕ) (s : Node × PubSub)
      → Sound limit s
      → Sound limit (close_one_connection on_error limit c s)
  unfolding close_one_connection
  close_one-Sound c (n, u) (q, t) = elim (Bool-cases (member c n.upstream_connections)) [
    | inl a ↦ simp a (dropped true)
    | inr a ↦ elim (Bool-cases (member c n.downstream_connections)) [
      | inl b ↦ simp (a, b) (dropped false)
      | inr b ↦ simp (a, b) (q, t)
    ]
  ]
    where
      dropped :
          (up : Bool)
          → Sound limit (
              drop_connection on_error limit up c
                (close_connection c n, forget_connection c none u))
      dropped up =
          drop_connection-Kept (Sound-Kept limit) on_error errors-Sound up c _
            (close_connection-Queues limit c n q, forget-Tables c none u t)

  Step-Sound : {s t : Node × PubSub} → Step s t → Sound limit s → Sound limit t
  unfolding close_node begin_collect
  Step-Sound (base st) h = (
    Base.Reach-Queues on_error on_new limit callbacks-Keeps (Base.then_step Base.here st) h.0,
    base-Tables st h,
  )
  Step-Sound (receive {s} up source bytes) h =
      on_receive-Handled (Sound-Handled limit) on_error errors-Sound held_limit up source bytes s h
  Step-Sound (accepted {s} c) h = activate-Handled (Sound-Handled limit) on_error errors-Sound c s h
  Step-Sound (drained {s} c) h =
      drain_next-Handled (Sound-Handled limit) on_error errors-Sound c s h
  Step-Sound (collects {s} targets id target) h =
      send_to-Kept (Sound-Kept limit) on_error errors-Sound targets (reachability_query id target) s
        h
  Step-Sound (combined {s} source id r) h =
      end_forward-Handled (Sound-Handled limit) on_error errors-Sound source id r s h
  Step-Sound (close_one {s} c) h = close_one-Sound c s h
  Step-Sound (close_all {s}) h = (close-Queues limit s.0 h.0, (tt, tt))

  reached : {s t : Node × PubSub} → Reach s t → Sound limit s → Sound limit t
  reached here h = h
  reached (then_step r st) h = Step-Sound st (reached r h)

  -- In every state that a new pub/sub node can reach, each connection's send queue is counted, within
  -- the limit and being sent, and both subscription tables have each subject once, with one
  -- connection at least and none twice.
  pub Reach-Sound :
      (id : Bytes) {t : Node × PubSub} → Reach (new_node, new_pub_sub id) t → Sound limit t
  Reach-Sound id r = reached r (Base.new_node-Queues limit, (tt, tt))
