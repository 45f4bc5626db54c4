-- ===== src/PubSub/Node/Held.antt =====
-- The messages that `PubSubNode` (software_bus/pubsub.py) holds for a connection, from `_on_receive` to
-- the loop of `_activate`.
mod Tests
use software_bus.Prelude.{
  ℕ, zero, suc, ◌+◌, ◌-◌, ◌≡◌, refl, sym, ap, subst, arith, ◌∙◌, not, ◌&&◌, ◌||◌, ltb, Bool, true,
  false, if◌then◌else◌, List, [], ◌∷◌, ◌++◌, append_assoc, append-nil, length, member, update,
  update_self, Bool-cases, inl, inr,
}
use software_bus.BaseLayer.Node.{Node}
use software_bus.PubSub.Codec.{Message}
use software_bus.PubSub.Query.{discard}
use software_bus.PubSub.State.{HeldMessages, PubSub}
use software_bus.PubSub.Node.{error_callback}
use software_bus.PubSub.Node.Receive.{
  handle_message, receive_message, drain, drain_next, hold, is_routed,
}
use software_bus.PubSub.Node.HeldKept.{handle_message-held}

-- The sizes of the messages.
abbrev pub total : List (Message × ℕ) → ℕ
total [] = 0
total ((m, size) ∷ messages) = size + total messages

total-append : (ms ns : List (Message × ℕ)) → total (ms ++ ns) ≡ total ms + total ns
total-append [] ns = omega arith
total-append ((m, size) ∷ ms) ns = omega (arith, total-append ms ns)

module _ (limit held_limit c : ℕ) where
  -- From a state of the node to a later one: what has arrived on `c` to be held, and what of it has
  -- been taken off by the loop. The rest of the node does whatever leaves what is held for `c` as it is.
  pub data Course (s : Node × PubSub)
      : List (Message × ℕ) → List (Message × ℕ) → Node × PubSub → Type 0 where
    start : Course s [] [] s
    arrives :
        {arrived handled : List (Message × ℕ)} {t : Node × PubSub} (up : Bool) (m : Message)
        (size : ℕ)
        → Course s arrived handled t
        → (is_routed m && (member c t.1.pending || member c t.1.draining)) ≡ true
        → ltb held_limit ((t.1.held c).size + size) ≡ false
        → Course s
            (arrived ++ (m, size) ∷ [])
            handled
            (receive_message (error_callback limit) limit held_limit up c m size t)
    drains :
        {arrived handled rest : List (Message × ℕ)} {t : Node × PubSub} {m : Message} {size : ℕ}
        → Course s arrived handled t
        → (t.1.held c).messages ≡ (m, size) ∷ rest
        → member c t.1.draining ≡ true
        → Course s arrived (handled ++ (m, size) ∷ []) (drain_next (error_callback limit) limit c t)
    others :
        {arrived handled : List (Message × ℕ)} {t v : Node × PubSub}
        → Course s arrived handled t
        → v.1.held c ≡ t.1.held c
        → Course s arrived handled v

  receive_message-held :
      (up : Bool) (m : Message) (size : ℕ) (t : Node × PubSub)
      → (is_routed m && (member c t.1.pending || member c t.1.draining)) ≡ true
      → ltb held_limit ((t.1.held c).size + size) ≡ false
      → (receive_message (error_callback limit) limit held_limit up c m size t).1.held c ≡ record {
        messages = (t.1.held c).messages ++ (m, size) ∷ [];
        size = (t.1.held c).size + size;
      }
  unfolding receive_message
  receive_message-held up m size (n, u) a b = simp (a, b) (update_self u.held c _)

  drain_next-held :
      (m : Message) (size : ℕ) (rest : List (Message × ℕ)) (t : Node × PubSub)
      → (t.1.held c).messages ≡ (m, size) ∷ rest
      → member c t.1.draining ≡ true
      → (drain_next (error_callback limit) limit c t).1.held c
        ≡ record { messages = rest; size = (t.1.held c).size - size }
  unfolding drain_next drain
  drain_next-held m size rest (n, u) e d =
      let new : HeldMessages = record { messages = rest; size = (u.held c).size - size } in
      let after =
        handle_message-held limit (update u.held c new) true c m
          (n, record u { held = update u.held c new }) refl in
      rw (e, drain) (rw (d) (ap (λ (h : ℕ → HeldMessages). h c) after ∙ update_self u.held c new))

  -- `k` rounds of the loop of `_activate`.
  abbrev pub rounds : ℕ → Node × PubSub → Node × PubSub
  rounds zero s = s
  rounds (suc k) s = rounds k (drain_next (error_callback limit) limit c s)

  -- The first of the held messages is taken off.
  abbrev pub take_first : List (Message × ℕ) → ℕ → Node × PubSub → Node × PubSub
  take_first rest size (n, u) = (
    n,
    record u { held = update u.held c (record { messages = rest; size = (u.held c).size - size }) },
  )

  -- These messages, taken off and handled one after the other while the connection still drains. It
  -- drains no longer once all of them have been handled.
  abbrev pub handle_each : List (Message × ℕ) → Node × PubSub → Node × PubSub
  handle_each [] (n, u) = (n, record u { draining = discard c u.draining })
  handle_each ((m, size) ∷ rest) s =
      if member c s.1.draining
      then handle_each rest
          (handle_message (error_callback limit) limit true c m (take_first rest size s))
      else s

  rounds-stopped :
      (m : Message) (size k : ℕ) (rest : List (Message × ℕ)) (s : Node × PubSub)
      → (s.1.held c).messages ≡ (m, size) ∷ rest
      → member c s.1.draining ≡ false
      → rounds k s ≡ s
  unfolding drain_next drain
  rounds-stopped m size zero rest s e d = refl
  rounds-stopped m size (suc k) rest (n, u) e d =
      let same : drain_next (error_callback limit) limit c (n, u) ≡ (n, u) =
        rw (e, drain) (rw d refl) in
      ap (rounds k) same ∙ rounds-stopped m size k rest (n, u) e d

  rounds-handle_each :
      (messages : List (Message × ℕ)) (s : Node × PubSub)
      → (s.1.held c).messages ≡ messages
      → rounds (suc (length messages)) s ≡ handle_each messages s
  unfolding drain_next drain
  rounds-handle_each [] (n, u) e = rw (e, drain) refl
  rounds-handle_each ((m, size) ∷ rest) (n, u) e = elim (Bool-cases (member c u.draining)) [
    | inr d ↦ simp d (rounds-stopped m size (suc (suc (length rest))) rest (n, u) e d)
    | inl d ↦
        let next =
          handle_message (error_callback limit) limit true c m (take_first rest size (n, u)) in
        let same : drain_next (error_callback limit) limit c (n, u) ≡ next =
          rw (e, drain) (rw d refl) in
        let left : (next.1.held c).messages ≡ rest =
          ap (λ (s : Node × PubSub). (s.1.held c).messages) (sym same)
          ∙ ap (λ (h : HeldMessages). h.messages) (drain_next-held m size rest (n, u) e d) in
        simp d (ap (rounds (suc (length rest))) same ∙ rounds-handle_each rest next left)
  ]

  -- What is held is counted, and with what has been handled before it is what has arrived.
  abbrev pub Counted : Node × PubSub → Type 0
  Counted s = (s.1.held c).size ≡ total (s.1.held c).messages

  Course-order :
      (s : Node × PubSub) {arrived handled : List (Message × ℕ)} {t : Node × PubSub}
      → Course s arrived handled t
      → Counted s
      → ((s.1.held c).messages ++ arrived ≡ handled ++ (t.1.held c).messages) × Counted t
  Course-order s start k = (append-nil (s.1.held c).messages, k)
  Course-order s (arrives {arrived} {handled} {t} up m size path a b) k =
      let (order, count) = Course-order s path k in
      let r = receive_message-held up m size t a b in
      let x : List (Message × ℕ) = (m, size) ∷ [] in
      (
        sym (append_assoc (s.1.held c).messages arrived x)
            ∙ ap (λ l. l ++ x) order
            ∙ append_assoc handled (t.1.held c).messages x
            ∙ ap (λ (h : HeldMessages). handled ++ h.messages) (sym r),
        omega (
          arith,
          count,
          total-append (t.1.held c).messages x,
          ap (λ (h : HeldMessages). h.size) r,
          ap (λ (h : HeldMessages). total h.messages) r,
        ),
      )
  Course-order s (drains {arrived} {handled} {rest} {t} {m} {size} path e d) k =
      let (order, count) = Course-order s path k in
      let r = drain_next-held m size rest t e d in
      let x : List (Message × ℕ) = (m, size) ∷ [] in
      (
        order
            ∙ ap (λ l. handled ++ l) e
            ∙ sym (append_assoc handled x rest)
            ∙ ap (λ (h : HeldMessages). (handled ++ x) ++ h.messages) (sym r),
        omega (
          arith,
          count,
          ap total e,
          ap (λ (h : HeldMessages). h.size) r,
          ap (λ (h : HeldMessages). total h.messages) r,
        ),
      )
  Course-order s (others {arrived} {handled} path e) k =
      let (order, count) = Course-order s path k in
      (
        order ∙ ap (λ (h : HeldMessages). handled ++ h.messages) (sym e),
        ap (λ (h : HeldMessages). h.size) e
            ∙ count
            ∙ ap (λ (h : HeldMessages). total h.messages) (sym e),
      )

  -- From a state whose held messages are counted: the messages of a connection that are held, within
  -- the limit, are taken off in the order of their arrival, none left out and none twice. What was
  -- held at first and what has arrived since is what has been taken off and, after it, what is still
  -- held. The size that is compared with the limit stays that of the messages that are held. And the
  -- loop, run from there to its end, handles each of the messages that are still held as a message
  -- from that connection, one after the other in that order, for as long as the connection drains;
  -- once it has handled all, the connection drains no longer.
  pub Course-held :
      (s : Node × PubSub) {arrived handled : List (Message × ℕ)} {t : Node × PubSub}
      → Course s arrived handled t
      → Counted s
      → ((s.1.held c).messages ++ arrived ≡ handled ++ (t.1.held c).messages)
        × Counted t
        × (rounds (suc (length (t.1.held c).messages)) t ≡ handle_each (t.1.held c).messages t)
  Course-held s {t} path k =
      let (order, count) = Course-order s path k in
      (order, count, rounds-handle_each (t.1.held c).messages t refl)
