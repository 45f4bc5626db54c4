-- ===== src/BaseLayer/Node/Queues.antt =====
-- The send queues of `BaseLayerNode` (software_bus/base_layer.py): their count, their bound, and
-- the loop that empties them.
use software_bus.Prelude.{
  ℕ, ◌+◌, ◌≤◌, ◌≡◌, refl, sym, ap, ◌∙◌, arith, Bool, true, false, none, some, List, [], ◌∷◌, ◌++◌,
  length, drop, member, remove, Bool-cases, inl, inr, subst₂, update_all,
}
use software_bus.Text.{Bytes}
use software_bus.BaseLayer.Node.{
  SendTask, stopped, running, Connection, new_connection, Node, connections, set_connections,
  all_connections, set_connection, closed_connection, close_socket, close_sockets, queued, taken,
  begin_send, finish_send, send_next, send_taken, start_connection, close_connection, close,
}

abbrev pub total : List Bytes → ℕ
total [] = 0
total (b ∷ bs) = length b + total bs

total-append : (bs : List Bytes) (b : Bytes) → total (bs ++ b ∷ []) ≡ total bs + length b
total-append [] b = omega arith
total-append (a ∷ bs) b = omega (arith, total-append bs b)

-- The data in flight is the head of the queue; an open connection with a queue has a send loop.
abbrev pub Driven : SendTask → Bool → List Bytes → Type 0
Driven stopped false queue = queue ≡ []
Driven (running (some b)) false queue = queue ≡ b ∷ drop 1 queue
Driven task closing queue = Unit {0}

pub record IsSound (limit : ℕ) (x : Connection) : Type 0 where
  pub counted : x.queued_bytes ≡ total x.send_queue
  pub within : x.queued_bytes ≤ limit
  pub driven : Driven x.send_task x.is_closing x.send_queue

-- Every connection of the node is sound.
abbrev pub Queues : ℕ → Node → Type 0
Queues limit n = (c : ℕ) → IsSound limit (n.connection c)

Driven-append :
    (task : SendTask) (closing : Bool) (queue : List Bytes) (b : Bytes)
    → Driven task closing queue
    → Driven
        (elim task [ stopped ↦ running none | running w ↦ running w ])
        closing
        (queue ++ b ∷ [])
Driven-append stopped false queue b h = tt
Driven-append stopped true queue b h = tt
Driven-append (running none) closing queue b h = tt
Driven-append (running (some a)) true queue b h = tt
Driven-append (running (some a)) false [] b h = cc
Driven-append (running (some a)) false (x ∷ xs) b h = cc

module _ (limit : ℕ) where
  closed_connection-IsSound : (x : Connection) → IsSound limit (closed_connection x)
  closed_connection-IsSound x = record { counted = refl; within = omega arith; driven = tt }

  pub new_connection-IsSound : IsSound limit new_connection
  new_connection-IsSound = record { counted = refl; within = omega arith; driven = refl }

  pub queued-IsSound :
      (b : Bytes) (x : Connection)
      → x.queued_bytes + length b ≤ limit
      → IsSound limit x
      → IsSound limit (queued b x)
  queued-IsSound b x h s = record {
    counted = omega (arith, s.counted, total-append x.send_queue b);
    within = h;
    driven = Driven-append x.send_task x.is_closing x.send_queue b s.driven;
  }

  taken-IsSound :
      (b : Bytes) (x : Connection)
      → x.send_task ≡ running (some b)
      → IsSound limit x
      → IsSound limit (taken b x)
  taken-IsSound b x h s = elim (Bool-cases x.is_closing) [
    | inl e ↦ rw e (record { counted = s.counted; within = s.within; driven = tt })
    | inr e ↦
        let head : x.send_queue ≡ b ∷ drop 1 x.send_queue =
          subst₂ (λ t c. Driven t c x.send_queue) h e s.driven in
        let size : total x.send_queue ≡ length b + total (drop 1 x.send_queue) = ap total head in
        rw e (record {
          counted = omega (arith, s.counted, size);
          within = omega (arith, s.within);
          driven = tt;
        })
  ]

  pub set_connection-Queues :
      (c : ℕ) (x : Connection) (n : Node)
      → IsSound limit x
      → Queues limit n
      → Queues limit (set_connection c x n)
  set_connection-Queues c x n s q = update_all (IsSound limit) n.connection c x s q

  pub begin_send-IsSound :
      (task : SendTask) (queue : List Bytes) (x : Connection)
      → x.send_task ≡ task
      → x.send_queue ≡ queue
      → IsSound limit x
      → IsSound limit (begin_send task queue x)
  unfolding begin_send
  begin_send-IsSound stopped queue x e f s = s
  begin_send-IsSound (running (some b)) queue x e f s = s
  begin_send-IsSound (running none) [] x e f s = record {
    counted = s.counted;
    within = s.within;
    driven = elim x.is_closing as (λ c. Driven stopped c x.send_queue) [ true ↦ tt | false ↦ f ];
  }
  begin_send-IsSound (running none) (b ∷ rest) x e f s = record {
    counted = s.counted;
    within = s.within;
    driven = elim x.is_closing as (λ c. Driven (running (some b)) c x.send_queue) [
      | true ↦ tt
      | false ↦ f ∙ ap (λ q. b ∷ drop 1 q) (sym f)
    ];
  }

  pub finish_send-IsSound :
      (task : SendTask) (x : Connection)
      → x.send_task ≡ task
      → IsSound limit x
      → IsSound limit (finish_send task x)
  unfolding finish_send
  finish_send-IsSound stopped x e s = s
  finish_send-IsSound (running none) x e s = s
  finish_send-IsSound (running (some b)) x e s = taken-IsSound b x e s

  pub send_next-Queues : (c : ℕ) (n : Node) → Queues limit n → Queues limit (send_next c n)
  unfolding send_next
  send_next-Queues c n q =
      let x = n.connection c in
      set_connection-Queues c _ n (begin_send-IsSound x.send_task x.send_queue x refl refl (q c)) q

  pub send_taken-Queues : (c : ℕ) (n : Node) → Queues limit n → Queues limit (send_taken c n)
  unfolding send_taken
  send_taken-Queues c n q =
      let x = n.connection c in
      set_connection-Queues c _ n (finish_send-IsSound x.send_task x refl (q c)) q

  pub close_socket-Queues : (c : ℕ) (n : Node) → Queues limit n → Queues limit (close_socket c n)
  unfolding close_socket
  close_socket-Queues c n q =
      set_connection-Queues c _ n (closed_connection-IsSound (n.connection c)) q

  close_sockets-Queues :
      (cs : List ℕ) (n : Node) → Queues limit n → Queues limit (close_sockets cs n)
  unfolding close_sockets
  close_sockets-Queues [] n q = q
  close_sockets-Queues (c ∷ cs) n q =
      close_sockets-Queues cs (close_socket c n) (close_socket-Queues c n q)

  pub set_connections-Queues :
      (up : Bool) (cs : List ℕ) (n : Node) → Queues limit n → Queues limit (set_connections up cs n)
  set_connections-Queues true cs n q = q
  set_connections-Queues false cs n q = q

  pub start_connection-Queues :
      (up : Bool) (c : ℕ) (n : Node) → Queues limit n → Queues limit (start_connection up c n)
  unfolding start_connection
  start_connection-Queues up c n q =
      let n' = set_connections up (connections up n ++ c ∷ []) n in
      set_connection-Queues c new_connection n' new_connection-IsSound
        (set_connections-Queues up (connections up n ++ c ∷ []) n q)

  pub close_connection-Queues :
      (c : ℕ) (n : Node) → Queues limit n → Queues limit (close_connection c n)
  unfolding close_connection
  close_connection-Queues c n q = elim (Bool-cases (member c n.upstream_connections)) [
    | inl e ↦
        rw e (close_socket-Queues c (set_connections true (remove c n.upstream_connections) n) q)
    | inr e ↦ elim (Bool-cases (member c n.downstream_connections)) [
      | inl f ↦
          rw (e, f)
            (close_socket-Queues c (set_connections false (remove c n.downstream_connections) n) q)
      | inr f ↦ rw (e, f) q
    ]
  ]

  pub close-Queues : (n : Node) → Queues limit n → Queues limit (close n)
  unfolding close
  close-Queues n q = close_sockets-Queues (all_connections n) (record n { is_closed = true }) q
