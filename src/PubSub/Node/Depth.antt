-- ===== src/PubSub/Node/Depth.antt =====
-- How deep the connection error callback of `PubSubNode` (software_bus/pubsub.py) goes, when its own
-- sending finds further failed connections.
use software_bus.Prelude.{
  ℕ, zero, suc, ◌+◌, ◌≤◌, ◌≡◌, refl, ap, ◌∙◌, arith, ltb, Bool, true, false, Option, none, some,
  List, [], ◌∷◌, length, length-append, member, Error, Bool-cases, inl, inr, Result-cases, remove,
}
use software_bus.Text.{Text, Bytes}
use software_bus.BaseLayer.Framing.{check_payload_length}
use software_bus.BaseLayer.Node.{Node, all_connections, connections, set_connections, close_socket}
use software_bus.BaseLayer.Node.Transfer.{
  OnError, relay_to, relay_each, relay_one, handle_connection_error,
}
use software_bus.PubSub.Codec.{Message, subscription, encode_message}
use software_bus.PubSub.Subscriptions.{discard_subscriber}
use software_bus.PubSub.State.{PubSub, subscriptions, forget_connection}
use software_bus.PubSub.Node.{
  send_to, tell, unsubscribe, unsubscribe_each, drop_connection, on_connection_error,
  error_callback_within, error_callback,
}
use software_bus.PubSub.Node.Kept.{Kept, relay_each-Kept, unsubscribe-Kept, within-Kept}

abbrev count : Node × PubSub → ℕ
count s = length (all_connections s.0)

length-remove : (c : ℕ) (xs : List ℕ) → length (remove c xs) ≤ length xs
unfolding remove
length-remove c [] = omega arith
length-remove c (x ∷ xs) = ground (arith, length-remove c xs)

length-remove_there :
    (c : ℕ) (xs : List ℕ) → member c xs ≡ true → 1 + length (remove c xs) ≡ length xs
unfolding remove member
length-remove_there c [] h = ground arith
length-remove_there c (x ∷ xs) h = ground (arith, length-remove_there c xs)

-- Both lists of connections are counted, and one of them shrinks.
count-unlist :
    (up : Bool) (c : ℕ) (n : Node) (u : PubSub)
    → count (set_connections up (remove c (connections up n)) n, u) ≤ count (n, u)
count-unlist true c n u = omega (
  arith,
  length-append n.downstream_connections (remove c n.upstream_connections),
  length-append n.downstream_connections n.upstream_connections,
  length-remove c n.upstream_connections,
)
count-unlist false c n u = omega (
  arith,
  length-append (remove c n.downstream_connections) n.upstream_connections,
  length-append n.downstream_connections n.upstream_connections,
  length-remove c n.downstream_connections,
)

count-unlist_there :
    (up : Bool) (c : ℕ) (n : Node) (u : PubSub)
    → member c (connections up n) ≡ true
    → 1 + count (set_connections up (remove c (connections up n)) n, u) ≡ count (n, u)
count-unlist_there true c n u h = omega (
  arith,
  length-append n.downstream_connections (remove c n.upstream_connections),
  length-append n.downstream_connections n.upstream_connections,
  length-remove_there c n.upstream_connections h,
)
count-unlist_there false c n u h = omega (
  arith,
  length-append (remove c n.downstream_connections) n.upstream_connections,
  length-append n.downstream_connections n.upstream_connections,
  length-remove_there c n.downstream_connections h,
)

count-Kept : (limit b : ℕ) → Kept limit (λ s. count s ≤ b)
unfolding close_socket
count-Kept limit b = record {
  queue = λ c bytes n u h p. p;
  shut = λ c n u p. p;
  unlist = λ up c n u p. omega (arith, p, count-unlist up c n u);
  discard = λ up subject c n u p. p;
  forget = λ c e n u p. p;
}

-- Two callbacks that do the same once less than `b` connections are left.
abbrev Agree : ℕ → OnError PubSub → OnError PubSub → Type 0
Agree b f g =
    (up : Bool) (c : ℕ) (e : Error) (s : Node × PubSub) → 1 + count s ≤ b → f up c e s ≡ g up c e s

module _ (limit b : ℕ) (f g : OnError PubSub) (agree : Agree b f g)
    (keep : (up : Bool) (c : ℕ) (e : Error) (s : Node × PubSub)
      → count s ≤ b
      → count (f up c e s) ≤ b) where
  handle_same :
      (up : Bool) (c : ℕ) (e : Error) (s : Node × PubSub)
      → count s ≤ b
      → handle_connection_error f up c e s ≡ handle_connection_error g up c e s
  unfolding handle_connection_error
  handle_same up c e (n, u) h = elim (Bool-cases (member c (connections up n))) [
    | inr a ↦ simp a
    | inl a ↦ simp a (
        ap (λ t. (close_socket c t.0, t.1))
          (agree up c e _ (omega (arith, h, count-unlist_there up c n u a))))
  ]

  relay_one_same :
      (bytes : Bytes) (c : ℕ) (s : Node × PubSub)
      → count s ≤ b
      → relay_one f limit bytes c s ≡ relay_one g limit bytes c s
  unfolding relay_one
  relay_one_same bytes c (n, u) h =
      elim (Bool-cases (ltb limit ((n.connection c).queued_bytes + length bytes))) [
        | inl a ↦ simp a (handle_same _ c Error.connection_too_slow (n, u) h)
        | inr a ↦ simp a
      ]

  relay_each_same :
      (bytes : Bytes) (cs : List ℕ) (s : Node × PubSub)
      → count s ≤ b
      → relay_each f limit bytes cs s ≡ relay_each g limit bytes cs s
  unfolding relay_each
  relay_each_same bytes [] s h = refl
  relay_each_same bytes (c ∷ cs) s h =
      relay_each_same bytes cs (relay_one f limit bytes c s)
        (relay_each-Kept (count-Kept limit b) f keep bytes (c ∷ []) s h)
      ∙ ap (relay_each g limit bytes cs) (relay_one_same bytes c s h)

  send_to_same :
      (cs : List ℕ) (m : Message) (s : Node × PubSub)
      → count s ≤ b
      → send_to f limit cs m s ≡ send_to g limit cs m s
  unfolding send_to relay_to
  send_to_same cs m s h = elim (Result-cases (encode_message m)) [
    | inr (x, e) ↦ rw (e, send_to)
    | inl (bytes, e) ↦ elim (Result-cases (check_payload_length (length bytes))) [
      | inl (u, d) ↦ rw (e, send_to) (rw (d, relay_to) (relay_each_same bytes cs s h))
      | inr (x, d) ↦ rw (e, send_to) (rw (d, relay_to))
    ]
  ]

  tell_same :
      (cs : Option (List ℕ)) (subject : Text) (s : Node × PubSub)
      → count s ≤ b
      → tell f limit cs subject s ≡ tell g limit cs subject s
  unfolding tell
  tell_same none subject s h = refl
  tell_same (some cs) subject s h = send_to_same cs (subscription subject false) s h

  unsubscribe_same :
      (up : Bool) (subject : Text) (c : ℕ) (s : Node × PubSub)
      → count s ≤ b
      → unsubscribe f limit up subject c s ≡ unsubscribe g limit up subject c s
  unfolding unsubscribe
  unsubscribe_same up subject c (n, u) h =
      elim (Bool-cases (discard_subscriber subject c (subscriptions up u)).0) [
        | inl a ↦ simp a (tell_same _ subject _ h)
        | inr a ↦ simp a
      ]

  unsubscribe_each_same :
      (up : Bool) (c : ℕ) (subjects : List Text) (s : Node × PubSub)
      → count s ≤ b
      → unsubscribe_each f limit up c subjects s ≡ unsubscribe_each g limit up c subjects s
  unfolding unsubscribe_each
  unsubscribe_each_same up c [] s h = refl
  unsubscribe_each_same up c (x ∷ xs) s h =
      unsubscribe_each_same up c xs (unsubscribe f limit up x c s)
        (unsubscribe-Kept (count-Kept limit b) f keep up x c s h)
      ∙ ap (unsubscribe_each g limit up c xs) (unsubscribe_same up x c s h)

  on_connection_error_same :
      (up : Bool) (c : ℕ) (e : Error) (s : Node × PubSub)
      → count s ≤ b
      → on_connection_error f limit up c e s ≡ on_connection_error g limit up c e s
  unfolding on_connection_error drop_connection
  on_connection_error_same up c e (n, u) h =
      unsubscribe_each_same up c _ (n, forget_connection c (some e) u) h

within_keep :
    (limit depth b : ℕ) (up : Bool) (c : ℕ) (e : Error) (s : Node × PubSub)
    → count s ≤ b
    → count (error_callback_within limit depth up c e s) ≤ b
within_keep limit depth b = within-Kept (count-Kept limit b) depth

-- A depth of the number of connections that were there is enough.
within-Agree :
    (limit b j k : ℕ)
    → b ≤ j
    → b ≤ k
    → Agree b (error_callback_within limit j) (error_callback_within limit k)
unfolding error_callback_within
within-Agree limit zero j k h l up c e s m = absurd (omega arith)
within-Agree limit (suc b) zero k h l up c e s m = absurd (omega arith)
within-Agree limit (suc b) (suc j) zero h l up c e s m = absurd (omega arith)
within-Agree limit (suc b) (suc j) (suc k) h l up c e s m =
    on_connection_error_same limit b (error_callback_within limit j) (error_callback_within limit k)
      (within-Agree limit b j k (omega arith) (omega arith)) (within_keep limit j b) up c e s
      (omega arith)

-- The callback of a connection error is the source's, with itself as the callback of the failures
-- that its own sending finds: the bound on the depth of these is never met.
pub error_callback-on_connection_error :
    (limit : ℕ) (up : Bool) (c : ℕ) (e : Error) (s : Node × PubSub)
    → error_callback limit up c e s ≡ on_connection_error (error_callback limit) limit up c e s
unfolding error_callback error_callback_within
error_callback-on_connection_error limit up c e s =
    on_connection_error_same limit (count s) (error_callback_within limit (count s))
      (error_callback limit)
      (λ up' c' e' t h.
        within-Agree limit (suc (count t)) (count s) (suc (count t)) (omega (arith, h))
          (omega arith) up' c' e' t (omega arith))
      (within_keep limit (count s) (count s)) up c e s (omega arith)
