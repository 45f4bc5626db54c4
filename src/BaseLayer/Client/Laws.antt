-- ===== src/BaseLayer/Client/Laws.antt =====
-- What `BaseLayerClient` (software_bus/client.py) reports of its connections, in every order of calls.
use software_bus.Prelude.{
  ℕ, ◌≡◌, refl, ap, arith, not, ◌&&◌, ◌||◌, Bool, true, false, Option, none, some, List, [], ◌∷◌,
  ◌++◌, member, member-append, distinct, ==_iff, Bool-cases, inl, inr,
}
use software_bus.Text.{Bytes}
use software_bus.BaseLayer.Client.{
  Client, new_client, is_connection, connect_with, connect, handle_client_error, close_failed,
  on_data_received, register_receive_callback, begin_close, end_close,
}

-- What the client and its connections do, in any order.
pub data Step : Client → Client → Type 0 where
  connects : {s : Client} (c : ℕ) → member c s.made ≡ false → Step s (connect c s).1
  fails : {s : Client} (c : ℕ) → Step s (handle_client_error c s)
  fails_closed : {s : Client} (c : ℕ) → Step s (close_failed c s)
  receives : {s : Client} (bytes : Bytes) → Step s (on_data_received bytes s)
  registers : {s : Client} (given : Bool) → Step s (register_receive_callback given s)
  closes : {s : Client} → Step s (begin_close s.connection s)
  closed : {s : Client} → Step s (end_close s)

pub data Reach (s : Client) : Client → Type 0 where
  here : Reach s s
  onward : {t v : Client} → Reach s t → Step t v → Reach s v

-- Stated of the fields that matter.
record IsSound (connection : Option ℕ) (made started reported : List ℕ) : Type 0 where
  once : distinct reported ≡ true
  known : (c : ℕ) → member c reported ≡ true → member c started ≡ true
  current :
      (c : ℕ)
      → is_connection c connection ≡ true
      → (member c started && not (member c reported)) ≡ true
  new : (c : ℕ) → member c started ≡ true → member c made ≡ true

abbrev Sound : Client → Type 0
Sound s = IsSound s.connection s.made s.started s.reported

distinct-append :
    (xs : List ℕ) (c : ℕ)
    → distinct xs ≡ true
    → member c xs ≡ false
    → distinct (xs ++ c ∷ []) ≡ true
unfolding distinct member
distinct-append [] c d m = refl
distinct-append (x ∷ xs) c d m =
    ground (arith, d, m, distinct-append xs c, member-append x xs (c ∷ []), ==_iff x c, ==_iff c x)

connect-Sound :
    (c : ℕ) (connected : Option ℕ) (s : Client)
    → member c s.made ≡ false
    → Sound s
    → Sound (connect_with c connected s).1
unfolding connect_with member
connect-Sound c none s fresh h = record {
  once = h.once;
  known = λ d m. ground (arith, h.known d m, member-append d s.started (c ∷ []));
  current = λ d e. ground (
    arith,
    e,
    fresh,
    h.known d,
    h.new d,
    member-append d s.started (c ∷ []),
    ==_iff c d,
    ap (λ x. member x s.made),
  );
  new = λ d m.
      ground
        (arith, m, h.new d, member-append d s.started (c ∷ []), member-append d s.made (c ∷ []));
}
connect-Sound c (some connected) s fresh h = record {
  once = h.once;
  known = h.known;
  current = h.current;
  new = λ d m. ground (arith, h.new d m, member-append d s.made (c ∷ []));
}

handle-Sound : (c : ℕ) (s : Client) → Sound s → Sound (handle_client_error c s)
unfolding handle_client_error member
handle-Sound c s h = elim (Bool-cases (is_connection c s.connection)) [
  | inl e ↦ simp e (record {
    once = distinct-append s.reported c h.once (ground (arith, h.current c e));
    known = λ d m. ground (
      arith,
      m,
      h.known d,
      h.current c e,
      member-append d s.reported (c ∷ []),
      ==_iff c d,
      ap (λ x. member x s.started),
    );
    current = λ d k. absurd (ground (arith, k));
    new = h.new;
  })
  | inr e ↦ simp e h
]

shut-Sound : (connected : Option ℕ) (s : Client) → Sound s → Sound (begin_close connected s)
unfolding begin_close
shut-Sound none s h = h
shut-Sound (some c) s h = record {
  once = h.once;
  known = h.known;
  current = h.current;
  new = h.new;
}

Step-Sound : {s t : Client} → Step s t → Sound s → Sound t
unfolding close_failed on_data_received end_close
Step-Sound (connects {s} c fresh) h = connect-Sound c s.connection s fresh h
Step-Sound (fails {s} c) h = handle-Sound c s h
Step-Sound (fails_closed {s} c) h = record {
  once = h.once;
  known = h.known;
  current = h.current;
  new = h.new;
}
Step-Sound (receives {s} bytes) h = elim (Bool-cases s.has_receive_callback) [
  | inl e ↦ simp e (record { once = h.once; known = h.known; current = h.current; new = h.new })
  | inr e ↦ simp e h
]
Step-Sound (registers given) h = record {
  once = h.once;
  known = h.known;
  current = h.current;
  new = h.new;
}
Step-Sound (closes {s}) h = shut-Sound s.connection s h
Step-Sound closed h = record {
  once = h.once;
  known = h.known;
  current = λ c e. absurd (ground (arith, e));
  new = h.new;
}

reached : {s t : Client} → Reach s t → Sound s → Sound t
reached here h = h
reached (onward r step) h = Step-Sound step (reached r h)

-- In every order of connects, failed sends, errors of receive loops, messages and closes, the
-- connection error callback is called at most once for each connection, and only for connections
-- whose receive loop `connect` has started.
pub Reach-reported :
    {s : Client}
    → Reach new_client s
    → (c : ℕ)
    → (distinct s.reported ≡ true) × ((not (member c s.reported) || member c s.started) ≡ true)
Reach-reported {s} path c =
    let h = reached path started_sound in (h.once, ground (arith, h.known c))
  where
    started_sound : Sound new_client
    started_sound =
        unfold distinct member in
        record {
          once = refl;
          known = λ d m. absurd (ground (arith, m));
          current = λ d e. absurd (ground (arith, e));
          new = λ d m. absurd (ground (arith, m));
        }
