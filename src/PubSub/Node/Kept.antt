-- ===== src/PubSub/Node/Kept.antt =====
-- How to show that what `PubSubNode` (software_bus/pubsub.py) sends, and the failures that the
-- sending finds, keep a property of its state.
use software_bus.Prelude.{
  ℕ, zero, suc, ◌+◌, ◌≡◌, ltb, Bool, false, Option, none, some, List, [], ◌∷◌, length, member,
  Error, Bool-cases, inl, inr, Result-cases, remove,
}
use software_bus.Text.{Text, Bytes}
use software_bus.BaseLayer.Framing.{check_payload_length}
use software_bus.BaseLayer.Node.{
  Node, all_connections, connections, set_connections, set_connection, close_socket, queued,
}
use software_bus.BaseLayer.Node.Transfer.{
  OnError, relay_to, relay_each, relay_one, handle_connection_error,
}
use software_bus.PubSub.Codec.{Message, subscription, encode_message}
use software_bus.PubSub.Subscriptions.{discard_subscriber}
use software_bus.PubSub.State.{
  PubSub, subscriptions, set_subscriptions, forget_connection, subjects_of,
}
use software_bus.PubSub.Node.{
  send_to, tell, unsubscribe, unsubscribe_each, drop_connection, on_connection_error,
  error_callback_within, error_callback,
}

-- The single changes that sending and its failures are made of.
pub record Kept (limit : ℕ) (P : Node × PubSub → Type 0) : Type 0 where
  pub queue :
      (c : ℕ) (bytes : Bytes) (n : Node) (u : PubSub)
      → ltb limit ((n.connection c).queued_bytes + length bytes) ≡ false
      → P (n, u)
      → P (set_connection c (queued bytes (n.connection c)) n, u)
  pub shut : (c : ℕ) (n : Node) (u : PubSub) → P (n, u) → P (close_socket c n, u)
  pub unlist :
      (up : Bool) (c : ℕ) (n : Node) (u : PubSub)
      → P (n, u)
      → P (set_connections up (remove c (connections up n)) n, u)
  pub discard :
      (up : Bool) (subject : Text) (c : ℕ) (n : Node) (u : PubSub)
      → P (n, u)
      → P (n, set_subscriptions up (discard_subscriber subject c (subscriptions up u)).1 u)
  pub forget :
      (c : ℕ) (e : Option Error) (n : Node) (u : PubSub) → P (n, u) → P (n, forget_connection c e u)

module _ {limit : ℕ} {P : Node × PubSub → Type 0} (k : Kept limit P) where
  module _ (on_error : OnError PubSub)
      (errors : (up : Bool) (c : ℕ) (e : Error) (s : Node × PubSub)
        → P s
        → P (on_error up c e s)) where
    pub handle-Kept :
        (up : Bool) (c : ℕ) (e : Error) (s : Node × PubSub)
        → P s
        → P (handle_connection_error on_error up c e s)
    unfolding handle_connection_error
    handle-Kept up c e (n, u) p = elim (Bool-cases (member c (connections up n))) [
      | inr a ↦ simp a p
      | inl a ↦ simp a (k.shut c _ _ (errors up c e _ (k.unlist up c n u p)))
    ]

    relay_one-Kept :
        (bytes : Bytes) (c : ℕ) (s : Node × PubSub) → P s → P (relay_one on_error limit bytes c s)
    unfolding relay_one
    relay_one-Kept bytes c (n, u) p =
        elim (Bool-cases (ltb limit ((n.connection c).queued_bytes + length bytes))) [
          | inl a ↦ simp a (handle-Kept _ c Error.connection_too_slow (n, u) p)
          | inr a ↦ simp a (k.queue c bytes n u a p)
        ]

    pub relay_each-Kept :
        (bytes : Bytes) (cs : List ℕ) (s : Node × PubSub)
        → P s
        → P (relay_each on_error limit bytes cs s)
    unfolding relay_each
    relay_each-Kept bytes [] s p = p
    relay_each-Kept bytes (c ∷ cs) s p =
        relay_each-Kept bytes cs (relay_one on_error limit bytes c s) (relay_one-Kept bytes c s p)

    pub relay_to-Kept :
        (cs : List ℕ) (bytes : Bytes) (s : Node × PubSub)
        → P s
        → P (relay_to on_error limit cs bytes s)
    unfolding relay_to
    relay_to-Kept cs bytes s p = elim (Result-cases (check_payload_length (length bytes))) [
      | inl (u, e) ↦ rw (e, relay_to) (relay_each-Kept bytes cs s p)
      | inr (x, e) ↦ rw (e, relay_to) p
    ]

    pub send_to-Kept :
        (cs : List ℕ) (m : Message) (s : Node × PubSub) → P s → P (send_to on_error limit cs m s)
    unfolding send_to
    send_to-Kept cs m s p = elim (Result-cases (encode_message m)) [
      | inl (bytes, e) ↦ rw (e, send_to) (relay_to-Kept cs bytes s p)
      | inr (x, e) ↦ rw (e, send_to) p
    ]

    pub tell-Kept :
        (cs : Option (List ℕ)) (subject : Text) (s : Node × PubSub)
        → P s
        → P (tell on_error limit cs subject s)
    unfolding tell
    tell-Kept none subject s p = p
    tell-Kept (some cs) subject s p = send_to-Kept cs (subscription subject false) s p

    pub unsubscribe-Kept :
        (up : Bool) (subject : Text) (c : ℕ) (s : Node × PubSub)
        → P s
        → P (unsubscribe on_error limit up subject c s)
    unfolding unsubscribe
    unsubscribe-Kept up subject c (n, u) p =
        elim (Bool-cases (discard_subscriber subject c (subscriptions up u)).0) [
          | inl a ↦ simp a (tell-Kept _ subject _ (k.discard up subject c n u p))
          | inr a ↦ simp a p
        ]

    unsubscribe_each-Kept :
        (up : Bool) (c : ℕ) (subjects : List Text) (s : Node × PubSub)
        → P s
        → P (unsubscribe_each on_error limit up c subjects s)
    unfolding unsubscribe_each
    unsubscribe_each-Kept up c [] s p = p
    unsubscribe_each-Kept up c (x ∷ xs) s p =
        unsubscribe_each-Kept up c xs (unsubscribe on_error limit up x c s)
          (unsubscribe-Kept up x c s p)

    pub drop_connection-Kept :
        (up : Bool) (c : ℕ) (s : Node × PubSub) → P s → P (drop_connection on_error limit up c s)
    unfolding drop_connection
    drop_connection-Kept up c s p =
        unsubscribe_each-Kept up c (subjects_of c (subscriptions up s.1)) s p

    on_connection_error-Kept :
        (up : Bool) (c : ℕ) (e : Error) (s : Node × PubSub)
        → P s
        → P (on_connection_error on_error limit up c e s)
    unfolding on_connection_error
    on_connection_error-Kept up c e (n, u) p =
        drop_connection-Kept up c (n, forget_connection c (some e) u) (k.forget c (some e) n u p)

  pub within-Kept :
      (depth : ℕ) (up : Bool) (c : ℕ) (e : Error) (s : Node × PubSub)
      → P s
      → P (error_callback_within limit depth up c e s)
  unfolding error_callback_within
  within-Kept zero up c e s p = p
  within-Kept (suc depth) up c e s p =
      on_connection_error-Kept (error_callback_within limit depth) (within-Kept depth) up c e s p

  pub error_callback-Kept :
      (up : Bool) (c : ℕ) (e : Error) (s : Node × PubSub) → P s → P (error_callback limit up c e s)
  unfolding error_callback
  error_callback-Kept up c e s p = within-Kept (suc (length (all_connections s.0))) up c e s p
