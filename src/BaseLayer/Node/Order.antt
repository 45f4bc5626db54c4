-- ===== src/BaseLayer/Node/Order.antt =====
-- The order of what `BaseLayerNode` (software_bus/base_layer.py) sends on a connection.
use software_bus.Prelude.{
  ℕ, ◌+◌, ◌≡◌, refl, sym, ap, ◌∙◌, false, Option, none, some, List, [], ◌∷◌, ◌++◌, length, drop,
  append_assoc, append-nil, update_self, inl, inr, ◌⊎◌, subst, subst₂, ltb, not-ltb→le,
}
use software_bus.Text.{Bytes}
use software_bus.BaseLayer.Node.{
  SendTask, stopped, running, Connection, Node, set_connection, queued, begin_send, finish_send,
  send_next, send_taken,
}
use software_bus.BaseLayer.Node.Transfer.{OnError, relay_one}
use software_bus.BaseLayer.Node.Queues.{
  IsSound, Driven, queued-IsSound, begin_send-IsSound, finish_send-IsSound,
}

-- What has not been handed to the writer yet.
abbrev pub unwritten : SendTask → List Bytes → List Bytes
unwritten (running (some b)) queue = drop 1 queue
unwritten task queue = queue

-- All that has been accepted for the connection, in the order in which the peer gets it.
abbrev pub history : Connection → List Bytes
history x = x.written ++ unwritten x.send_task x.send_queue

history-begin_send :
    (task : SendTask) (queue : List Bytes) (x : Connection)
    → x.send_task ≡ task
    → x.send_queue ≡ queue
    → history (begin_send task queue x) ≡ history x
unfolding begin_send
history-begin_send stopped queue x e f = refl
history-begin_send (running (some b)) queue x e f = refl
history-begin_send (running none) [] x e f = ap (λ t. x.written ++ unwritten t x.send_queue) (sym e)
history-begin_send (running none) (b ∷ rest) x e f =
    append_assoc x.written (b ∷ []) (drop 1 x.send_queue)
    ∙ ap (λ q. x.written ++ q) (ap (λ q. b ∷ drop 1 q) f ∙ sym f)
    ∙ ap (λ t. x.written ++ unwritten t x.send_queue) (sym e)

history-finish_send :
    (task : SendTask) (x : Connection)
    → x.send_task ≡ task
    → x.is_closing ≡ false
    → history (finish_send task x) ≡ history x
unfolding finish_send
history-finish_send stopped x e o = refl
history-finish_send (running none) x e o = refl
history-finish_send (running (some b)) x e o =
    rw o (ap (λ t. x.written ++ unwritten t x.send_queue) (sym e))

unwritten-queued :
    (task : SendTask) (queue : List Bytes) (b : Bytes)
    → Driven task false queue
    → unwritten (elim task [ stopped ↦ running none | running w ↦ running w ]) (queue ++ b ∷ [])
      ≡ unwritten task queue ++ b ∷ []
unwritten-queued stopped queue b d = refl
unwritten-queued (running none) queue b d = refl
unwritten-queued (running (some a)) [] b d = cc
unwritten-queued (running (some a)) (x ∷ queue) b d = refl

history-queued :
    (b : Bytes) (x : Connection)
    → Driven x.send_task x.is_closing x.send_queue
    → x.is_closing ≡ false
    → history (queued b x) ≡ history x ++ b ∷ []
history-queued b x d o =
    ap (λ q. x.written ++ q)
      (unwritten-queued x.send_task x.send_queue b
        (subst (λ c. Driven x.send_task c x.send_queue) o d))
    ∙ sym (append_assoc x.written (unwritten x.send_task x.send_queue) (b ∷ []))

open-begin_send :
    (task : SendTask) (queue : List Bytes) (x : Connection)
    → (begin_send task queue x).is_closing ≡ x.is_closing
unfolding begin_send
open-begin_send stopped queue x = refl
open-begin_send (running (some b)) queue x = refl
open-begin_send (running none) [] x = refl
open-begin_send (running none) (b ∷ rest) x = refl

open-finish_send :
    (task : SendTask) (x : Connection)
    → x.is_closing ≡ false
    → (finish_send task x).is_closing ≡ false
unfolding finish_send
open-finish_send stopped x o = o
open-finish_send (running none) x o = o
open-finish_send (running (some b)) x o = rw o refl

module _ {U : Type 0} (on_error : OnError U) (limit c : ℕ) where
  -- From a state of the node to a later one, with the data that has been accepted for `c` since: it
  -- is relayed to `c`, whose queue has room for it, and the send loop goes on, as it will. The rest
  -- of the node does whatever leaves this connection as it is.
  pub data Traffic (n : Node) : List Bytes → Node → Type 0 where
    start : Traffic n [] n
    queues :
        {accepted : List Bytes} {m : Node} (bytes : Bytes) (u : U)
        → Traffic n accepted m
        → ltb limit ((m.connection c).queued_bytes + length bytes) ≡ false
        → Traffic n (accepted ++ bytes ∷ []) (relay_one on_error limit bytes c (m, u)).0
    next :
        {accepted : List Bytes} {m : Node}
        → Traffic n accepted m
        → Traffic n accepted (send_next c m)
    sent :
        {accepted : List Bytes} {m : Node}
        → Traffic n accepted m
        → Traffic n accepted (send_taken c m)
    others :
        {accepted : List Bytes} {m v : Node}
        → Traffic n accepted m
        → v.connection c ≡ m.connection c
        → Traffic n accepted v

  record After (n : Node) (accepted : List Bytes) (x : Connection) : Type 0 where
    ordered : history x ≡ history (n.connection c) ++ accepted
    sound : IsSound limit x
    opened : x.is_closing ≡ false

  After-set :
      {n : Node} {accepted : List Bytes} (m : Node) (x : Connection)
      → After n accepted x
      → After n accepted ((set_connection c x m).connection c)
  After-set {n} {accepted} m x a = subst (After n accepted) (sym (update_self m.connection c x)) a

  Traffic-After :
      {n m : Node} {accepted : List Bytes}
      → Traffic n accepted m
      → IsSound limit (n.connection c)
      → (n.connection c).is_closing ≡ false
      → After n accepted (m.connection c)
  unfolding send_next send_taken relay_one
  Traffic-After {n} start s o = record {
    ordered = sym (append-nil (history (n.connection c)));
    sound = s;
    opened = o;
  }
  Traffic-After {n} (queues {accepted} {m} bytes u t w) s o =
      let a = Traffic-After t s o in
      let x = m.connection c in
      let relayed : (relay_one on_error limit bytes c (m, u)).0
          ≡ set_connection c (queued bytes x) m =
        rw (w, relay_one) refl in
      subst (λ (v : Node). After n (accepted ++ bytes ∷ []) (v.connection c)) (sym relayed)
        (After-set m (queued bytes x) (record {
          ordered =
              history-queued bytes x a.sound.driven a.opened
              ∙ ap (λ l. l ++ bytes ∷ []) a.ordered
              ∙ append_assoc (history (n.connection c)) accepted (bytes ∷ []);
          sound = queued-IsSound limit bytes x (not-ltb→le _ _ w) a.sound;
          opened = a.opened;
        }))
  Traffic-After (next {accepted} {m} t) s o =
      let a = Traffic-After t s o in
      let x = m.connection c in
      After-set m (begin_send x.send_task x.send_queue x) (record {
        ordered = history-begin_send x.send_task x.send_queue x refl refl ∙ a.ordered;
        sound = begin_send-IsSound limit x.send_task x.send_queue x refl refl a.sound;
        opened = open-begin_send x.send_task x.send_queue x ∙ a.opened;
      })
  Traffic-After (sent {accepted} {m} t) s o =
      let a = Traffic-After t s o in
      let x = m.connection c in
      After-set m (finish_send x.send_task x) (record {
        ordered = history-finish_send x.send_task x refl a.opened ∙ a.ordered;
        sound = finish_send-IsSound limit x.send_task x refl a.sound;
        opened = open-finish_send x.send_task x a.opened;
      })
  Traffic-After {n} (others {accepted} {m} t e) s o =
      subst (After n accepted) (sym e) (Traffic-After t s o)

  drained :
      (task : SendTask) (x : Connection)
      → x.send_task ≡ task
      → IsSound limit x
      → x.is_closing ≡ false
      → ((w : Option Bytes) × (x.send_task ≡ running w)) ⊎ (x.written ≡ history x)
  drained (running w) x e s o = inl (w, e)
  drained stopped x e s o =
      let empty : x.send_queue ≡ [] = subst₂ (λ t b. Driven t b x.send_queue) e o s.driven in
      inr (
        sym (append-nil x.written)
        ∙ ap (λ q. x.written ++ q) (sym (ap (λ t. unwritten t x.send_queue) e ∙ empty)))

  -- Over any run in which data is relayed to an open connection with a sound queue, which has room
  -- for it, and its send loop goes on: what its peer gets, and then what is still to be sent, is what
  -- that was at first and, after it, all the data accepted since, once and in the order of
  -- acceptance. And once the send loop has stopped, all of it has been handed to the writer.
  pub Traffic-history :
      {n m : Node} {accepted : List Bytes}
      → Traffic n accepted m
      → IsSound limit (n.connection c)
      → (n.connection c).is_closing ≡ false
      → (history (m.connection c) ≡ history (n.connection c) ++ accepted)
        × (((w : Option Bytes) × ((m.connection c).send_task ≡ running w))
            ⊎ ((m.connection c).written ≡ history (n.connection c) ++ accepted))
  Traffic-history {n} {m} {accepted} t s o =
      let a = Traffic-After t s o in
      let x = m.connection c in
      (
        a.ordered,
        elim (drained x.send_task x refl a.sound a.opened) [
          | inl r ↦ inl r
          | inr w ↦ inr (w ∙ a.ordered)
        ],
      )
