-- ===== src/BaseLayer/Node/Relay.antt =====
-- The routing rule of `BaseLayerNode` (software_bus/base_layer.py), under its default callbacks.
use software_bus.Prelude.{
  ℕ, ◌+◌, ◌≡◌, ◌≢◌, refl, sym, ap, subst, and_left, ◌∙◌, arith, ltb, ◌||◌, ◌&&◌, not, Bool, true,
  false, List, [], ◌∷◌, length, member, distinct, Bool-cases, inl, inr, ok, if◌then◌else◌, update,
  update_self, update_ne, ==_iff, ==_refl, ◌==◌, member-remove_ne, member-append, member-select,
  distinct-select,
}
use software_bus.Text.{Bytes}
use software_bus.BaseLayer.Framing.{check_payload_length}
use software_bus.BaseLayer.Node.{
  Connection, Node, all_connections, close_socket, closed_connection, queued, peers_except,
}
use software_bus.BaseLayer.Node.Transfer.{
  handle_connection_error, relay_one, relay_each, relay_to, default_receive_callback,
  default_connection_error_callback,
}

abbrev pub DefaultState : Type 0
DefaultState = Node × Unit {0}

abbrev pub listed : ℕ → Node → Bool
listed c n = member c n.downstream_connections || member c n.upstream_connections

module _ (limit : ℕ) (bytes : Bytes) where
  -- A target with room gets the data at the end of its queue; one without is closed.
  abbrev pub delivered : Connection → Connection
  delivered x =
      if ltb limit (x.queued_bytes + length bytes) then closed_connection x else queued bytes x

  abbrev one : ℕ → DefaultState → DefaultState
  one = relay_one default_connection_error_callback limit bytes

  abbrev each : List ℕ → DefaultState → DefaultState
  each = relay_each default_connection_error_callback limit bytes

  connection-one :
      (t : ℕ) (s : DefaultState)
      → listed t s.0 ≡ true
      → (one t s).0.connection ≡ update s.0.connection t (delivered (s.0.connection t))
  unfolding relay_one handle_connection_error close_socket
  connection-one t s h =
      elim (Bool-cases (ltb limit ((s.0.connection t).queued_bytes + length bytes))) [
        | inr a ↦ simp a
        | inl a ↦ elim (Bool-cases (member t s.0.upstream_connections)) [
          | inl b ↦ simp (a, b)
          | inr b ↦
              let d : member t s.0.downstream_connections ≡ true = ground arith in simp (a, b, d)
        ]
      ]

  listed-one : (t c : ℕ) (s : DefaultState) → t ≢ c → listed c (one t s).0 ≡ listed c s.0
  unfolding relay_one handle_connection_error close_socket
  listed-one t c s h =
      elim (Bool-cases (ltb limit ((s.0.connection t).queued_bytes + length bytes))) [
        | inr a ↦ simp a
        | inl a ↦ elim (Bool-cases (member t s.0.upstream_connections)) [
          | inl b ↦ simp (a, b, member-remove_ne t c s.0.upstream_connections h)
          | inr b ↦ elim (Bool-cases (member t s.0.downstream_connections)) [
            | inl d ↦ simp (a, b, d, member-remove_ne t c s.0.downstream_connections h)
            | inr d ↦ simp (a, b, d)
          ]
        ]
      ]

  -- Every target is one of the node's connections, and none comes twice.
  abbrev Targets : List ℕ → DefaultState → Type 0
  Targets ts s = (distinct ts ≡ true) × ((t : ℕ) → member t ts ≡ true → listed t s.0 ≡ true)

  Targets-tail :
      (t : ℕ) (ts : List ℕ) (s : DefaultState) → Targets (t ∷ ts) s → Targets ts (one t s)
  unfolding distinct member
  Targets-tail t ts s (d, l) = (
    ground arith,
    λ c m.
        let ne : t ≢ c = λ e. ground (arith, ap (λ x. member x ts) e) in
        listed-one t c s ne ∙ l c (ground arith),
  )

  head-absent : (t c : ℕ) (ts : List ℕ) → t ≡ c → distinct (t ∷ ts) ≡ true → member c ts ≡ false
  unfolding distinct
  head-absent t c ts e d = ground (arith, ap (λ x. member x ts) e)

  connection-each :
      (ts : List ℕ) (s : DefaultState) (c : ℕ)
      → Targets ts s
      → (each ts s).0.connection c
        ≡ (if member c ts then delivered (s.0.connection c) else s.0.connection c)
  unfolding relay_each member
  connection-each [] s c h = refl
  connection-each (t ∷ ts) s c h =
      let first : (one t s).0.connection c
          ≡ update s.0.connection t (delivered (s.0.connection t)) c =
        ap (λ f. f c) (connection-one t s (h.1 t (unfold member in rw (==_refl t)))) in
      let rest = connection-each ts (one t s) c (Targets-tail t ts s h) in
      elim (Bool-cases (t == c)) [
        | inl e ↦
            let same : t ≡ c = (==_iff t c).0 e in
            let absent : member c ts ≡ false = head-absent t c ts same h.0 in
            let new : (one t s).0.connection c ≡ delivered (s.0.connection c) =
              first
              ∙ subst
                  (λ x.
                    update s.0.connection t (delivered (s.0.connection t)) x
                    ≡ delivered (s.0.connection x))
                  same (update_self s.0.connection t (delivered (s.0.connection t))) in
            simp e (
              subst
                (λ b.
                  (each ts (one t s)).0.connection c
                  ≡ (if b then delivered ((one t s).0.connection c) else (one t s).0.connection c))
                absent rest
              ∙ new)
        | inr e ↦
            let old : (one t s).0.connection c ≡ s.0.connection c =
              first ∙ update_ne s.0.connection t c (delivered (s.0.connection t)) e in
            simp e (
              subst
                (λ x. (each ts (one t s)).0.connection c ≡ (if member c ts then delivered x else x))
                old rest)
      ]

-- With distinct connections, data from `source` that is short enough is put at the end of the
-- queue of every other connection that has room for it, closes the others that have none, and
-- changes nothing of the source or of any other connection.
pub connection-default_receive_callback :
    (limit source : ℕ) (bytes : Bytes) (s : DefaultState) (c : ℕ)
    → distinct (all_connections s.0) ≡ true
    → check_payload_length (length bytes) ≡ ok tt
    → (default_receive_callback default_connection_error_callback limit source bytes s).0.connection
        c
      ≡ (if listed c s.0 && not (c == source)
          then delivered limit bytes (s.0.connection c)
          else s.0.connection c)
unfolding default_receive_callback relay_to peers_except
connection-default_receive_callback limit source bytes s c h k =
    let peers = peers_except source s.0 in
    let is_peer = λ (t : ℕ).
      member-select (λ x. not (x == source)) t (all_connections s.0)
      ∙ ap (λ b. b && not (t == source))
          (member-append t s.0.downstream_connections s.0.upstream_connections) in
    rw (k, relay_to)
      (connection-each limit bytes peers s c (
        distinct-select (λ x. not (x == source)) (all_connections s.0) h,
        λ t m. and_left (listed t s.0) (not (t == source)) (sym (is_peer t) ∙ m),
      )
        ∙ ap (λ b. if b then delivered limit bytes (s.0.connection c) else s.0.connection c)
            (is_peer c))
