-- ===== src/PubSub/Node/HeldKept.antt =====
-- Handling a message (software_bus/pubsub.py) leaves what is held for any connection as it is.
use software_bus.Prelude.{
  ℕ, ◌≡◌, refl, ◌∙◌, Bool, true, false, Option, List, [], ◌∷◌, member, Error, Bool-cases,
  Option-cases, inl, inr,
}
use software_bus.Text.{Text, Bytes}
use software_bus.BaseLayer.Node.{Node}
use software_bus.PubSub.Codec.{
  Message, subscription, publish, hello, reachability_query, reachability_reply,
}
use software_bus.PubSub.State.{HeldMessages, PubSub, set_subscriptions, forget_connection}
use software_bus.PubSub.Node.{
  send_to, handle_subscription, handle_publish, publish_targets, error_callback,
}
use software_bus.PubSub.Node.Receive.{
  handle_hello, forward_query, answer_now, handle_query, handle_reply, handle_message,
}
use software_bus.PubSub.Node.Kept.{Kept, send_to-Kept, unsubscribe-Kept, error_callback-Kept}

-- What is held, as it was.
abbrev pub Holds : (ℕ → HeldMessages) → Node × PubSub → Type 0
Holds h s = s.1.held ≡ h

set_subscriptions-held :
    (up : Bool) (t : List (Text × List ℕ)) (u : PubSub) → (set_subscriptions up t u).held ≡ u.held
set_subscriptions-held true t u = refl
set_subscriptions-held false t u = refl

forget_connection-held :
    (c : ℕ) (e : Option Error) (u : PubSub) → (forget_connection c e u).held ≡ u.held
unfolding forget_connection
forget_connection-held c e u = elim (Bool-cases (member c u.pending)) [
  | inl a ↦ simp a refl
  | inr a ↦ simp a refl
]

module _ (limit : ℕ) (h : ℕ → HeldMessages) where
  Holds-Kept : Kept limit (Holds h)
  Holds-Kept = record {
    queue = λ c bytes n u q p. p;
    shut = λ c n u p. p;
    unlist = λ up c n u p. p;
    discard = λ up subject c n u p. set_subscriptions-held up _ u ∙ p;
    forget = λ c e n u p. forget_connection-held c e u ∙ p;
  }

  errors :
      (up : Bool) (c : ℕ) (e : Error) (s : Node × PubSub)
      → Holds h s
      → Holds h (error_callback limit up c e s)
  errors = error_callback-Kept Holds-Kept

  told :
      (cs : List ℕ) (m : Message) (s : Node × PubSub)
      → Holds h s
      → Holds h (send_to (error_callback limit) limit cs m s)
  told = send_to-Kept Holds-Kept (error_callback limit) errors

  forward_query-held :
      (cs : List ℕ) (source : ℕ) (id : Bytes) (s : Node × PubSub)
      → Holds h s
      → Holds h (forward_query (error_callback limit) limit cs source id s)
  unfolding forward_query
  forward_query-held [] source id s p = told _ _ s p
  forward_query-held (c ∷ cs) source id (n, u) p = p

  -- Handling a message leaves what is held as it is.
  pub handle_message-held :
      (up : Bool) (source : ℕ) (m : Message) (s : Node × PubSub)
      → Holds h s
      → Holds h (handle_message (error_callback limit) limit up source m s)
  unfolding handle_message handle_publish handle_reply handle_subscription handle_hello handle_query
  handle_message-held up source (subscription subject true) (n, u) p =
      told _ (subscription subject true) _ (set_subscriptions-held up _ u ∙ p)
  handle_message-held up source (subscription subject false) s p =
      unsubscribe-Kept Holds-Kept (error_callback limit) errors up subject source s p
  handle_message-held up source (publish subject payload) s p =
      told (publish_targets source subject s.1) (publish subject payload) s p
  handle_message-held up source (hello id) (n, u) p = elim (Bool-cases (member source u.pending)) [
    | inl a ↦ simp a p
    | inr a ↦ simp a p
  ]
  handle_message-held up source (reachability_query id target) s p =
      elim (Option-cases (answer_now source id target s.1)) [
        | inl e ↦ rw (e, handle_query) (forward_query-held _ source id s p)
        | inr (r, e) ↦ rw (e, handle_query) (told _ _ s p)
      ]
  handle_message-held up source (reachability_reply id r) (n, u) p = p
