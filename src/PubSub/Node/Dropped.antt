-- ===== src/PubSub/Node/Dropped.antt =====
-- The subscriptions of a failed connection in `PubSubNode` (software_bus/pubsub.py).
use software_bus.Prelude.{
  ℕ, ◌≡◌, sym, subst, ap, ◌∙◌, arith, not, ◌||◌, Bool, true, false, Option, some, List, [], ◌∷◌,
  member, select, any, ==_iff, Bool-cases, inl, inr, Error,
}
use software_bus.Text.{Text, text_eq, text_eq_refl, text_eq_sound}
use software_bus.BaseLayer.Node.{Node}
use software_bus.BaseLayer.Node.Transfer.{OnError}
use software_bus.PubSub.Subscriptions.{Table, get, discard_subscriber}
use software_bus.PubSub.Subscriptions.Laws.{IsTable, get-discard_subscriber}
use software_bus.PubSub.State.{
  PubSub, subscriptions, set_subscriptions, forget_connection, subjects_of,
}
use software_bus.PubSub.Node.{
  unsubscribe, unsubscribe_each, drop_connection, on_connection_error, error_callback,
}
use software_bus.PubSub.Node.Kept.{Kept, tell-Kept, unsubscribe-Kept, error_callback-Kept}
use software_bus.PubSub.Node.Depth.{error_callback-on_connection_error}
use software_bus.PubSub.Node.Sound.{Tables, discard-Tables, forget-Tables, forget-tables}

-- `c` does not subscribe to `k` on one side.
abbrev Absent : Bool → ℕ → Text → PubSub → Type 0
Absent up c k u = Tables u × (member c (get k (subscriptions up u)) ≡ false)

absent-table :
    (k : Text) (c : ℕ) (subject : Text) (d : ℕ) (t : Table)
    → IsTable t
    → member c (get k t) ≡ false
    → member c (get k (discard_subscriber subject d t).1) ≡ false
absent-table k c subject d t h a = (get-discard_subscriber subject k d c t h).1 ∙ rw a

discard-Absent :
    (up : Bool) (c : ℕ) (k : Text) (side : Bool) (subject : Text) (d : ℕ) (u : PubSub)
    → Absent up c k u
    → Absent up c k
        (set_subscriptions side (discard_subscriber subject d (subscriptions side u)).1 u)
discard-Absent true c k true subject d u (h, a) =
    (discard-Tables true subject d u h, absent-table k c subject d u.upstream_subscriptions h.1 a)
discard-Absent true c k false subject d u (h, a) = (discard-Tables false subject d u h, a)
discard-Absent false c k true subject d u (h, a) = (discard-Tables true subject d u h, a)
discard-Absent false c k false subject d u (h, a) = (
  discard-Tables false subject d u h,
  absent-table k c subject d u.downstream_subscriptions h.0 a,
)

subscriptions-forget :
    (up : Bool) (c : ℕ) (e : Option Error) (u : PubSub)
    → subscriptions up (forget_connection c e u) ≡ subscriptions up u
subscriptions-forget true c e u = (forget-tables c e u).1
subscriptions-forget false c e u = (forget-tables c e u).0

Absent-Kept : (limit : ℕ) (up : Bool) (c : ℕ) (k : Text) → Kept limit (λ s. Absent up c k s.1)
Absent-Kept limit up c k = record {
  queue = λ d bytes n u h p. p;
  shut = λ d n u p. p;
  unlist = λ side d n u p. p;
  discard = λ side subject d n u p. discard-Absent up c k side subject d u p;
  forget = λ d e n u (h, a).
      (forget-Tables d e u h, ap (λ t. member c (get k t)) (subscriptions-forget up d e u) ∙ a);
}

subjects_of-get :
    (k : Text) (c : ℕ) (t : Table)
    → member c (get k t) ≡ true
    → any (λ x. text_eq x k) (subjects_of c t) ≡ true
unfolding get subjects_of select
subjects_of-get k c [] h = unfold member in h
subjects_of-get k c ((s, cs) ∷ t) h = ground (arith, subjects_of-get k c t)

subscriptions-IsTable : (up : Bool) (u : PubSub) → Tables u → IsTable (subscriptions up u)
subscriptions-IsTable true u h = h.1
subscriptions-IsTable false u h = h.0

Tables-Kept : (limit : ℕ) → Kept limit (λ s. Tables s.1)
Tables-Kept limit = record {
  queue = λ d bytes n u h p. p;
  shut = λ d n u p. p;
  unlist = λ side d n u p. p;
  discard = λ side subject d n u p. discard-Tables side subject d u p;
  forget = λ d e n u p. forget-Tables d e u p;
}

or_absent :
    (k : Text) (subjects : List Text) (b : Bool)
    → b ≡ false
    → (any (λ x. text_eq x k) subjects || not b) ≡ true
or_absent k subjects b h = ground (arith, h)

module _ (limit : ℕ) (up : Bool) (c : ℕ) (k : Text) where
  abbrev errors :
      (side : Bool) (d : ℕ) (e : Error) (s : Node × PubSub)
      → Absent up c k s.1
      → Absent up c k (error_callback limit side d e s).1
  errors = error_callback-Kept (Absent-Kept limit up c k)

  absent-discard :
      (u : PubSub)
      → Tables u
      → Absent up c k (set_subscriptions up (discard_subscriber k c (subscriptions up u)).1 u)
  absent-discard u h = (discard-Tables up k c u h, by_side up)
    where
      by_side :
          (side : Bool)
          → member c (
              get k (
                subscriptions side
                  (set_subscriptions side (discard_subscriber k c (subscriptions side u)).1 u)))
            ≡ false
      by_side true =
          (get-discard_subscriber k k c c u.upstream_subscriptions h.1).1
          ∙ ground (arith, text_eq_refl k, ==_iff c c)
      by_side false =
          (get-discard_subscriber k k c c u.downstream_subscriptions h.0).1
          ∙ ground (arith, text_eq_refl k, ==_iff c c)

  module _ (f : OnError PubSub)
      (keep : (side : Bool) (d : ℕ) (e : Error) (s : Node × PubSub)
        → Absent up c k s.1
        → Absent up c k (f side d e s).1)
      (tables : (side : Bool) (d : ℕ) (e : Error) (s : Node × PubSub)
        → Tables s.1
        → Tables (f side d e s).1) where
    unsubscribe-Absent :
        (s : Node × PubSub) → Tables s.1 → Absent up c k (unsubscribe f limit up k c s).1
    unfolding unsubscribe
    unsubscribe-Absent (n, u) h =
        elim (Bool-cases (discard_subscriber k c (subscriptions up u)).0) [
          | inl a ↦ simp a (tell-Kept (Absent-Kept limit up c k) f keep _ k _ (absent-discard u h))
          | inr a ↦
              let t = subscriptions up u in
              simp a
                (h, sym (get-discard_subscriber k k c c t (subscriptions-IsTable up u h)).0 ∙ a)
        ]

    -- Once `k` is unsubscribed, or if `c` is not subscribed to it, `c` stays absent from it.
    unsubscribe_each-Absent :
        (subjects : List Text) (s : Node × PubSub)
        → Tables s.1
        → (any (λ x. text_eq x k) subjects || not (member c (get k (subscriptions up s.1)))) ≡ true
        → Absent up c k (unsubscribe_each f limit up c subjects s).1
    unfolding unsubscribe_each
    unsubscribe_each-Absent [] s h a = (h, ground arith)
    unsubscribe_each-Absent (x ∷ xs) s h a = elim (Bool-cases (text_eq x k)) [
      | inl e ↦
          let p =
            subst (λ y. Absent up c k (unsubscribe f limit up y c s).1) (sym (text_eq_sound x k e))
              (unsubscribe-Absent s h) in
          unsubscribe_each-Absent xs (unsubscribe f limit up x c s) p.0 (or_absent k xs _ p.1)
      | inr e ↦ elim (Bool-cases (member c (get k (subscriptions up s.1)))) [
        | inr b ↦
            let p = unsubscribe-Kept (Absent-Kept limit up c k) f keep up x c s (h, b) in
            unsubscribe_each-Absent xs (unsubscribe f limit up x c s) p.0 (or_absent k xs _ p.1)
        | inl b ↦
            unsubscribe_each-Absent xs (unsubscribe f limit up x c s)
              (unsubscribe-Kept (Tables-Kept limit) f tables up x c s h) (ground arith)
      ]
    ]

    drop_connection-Absent :
        (s : Node × PubSub) → Tables s.1 → Absent up c k (drop_connection f limit up c s).1
    unfolding drop_connection
    drop_connection-Absent s h =
        unsubscribe_each-Absent (subjects_of c (subscriptions up s.1)) s h
          (ground (arith, subjects_of-get k c (subscriptions up s.1)))

  on_connection_error-Absent :
      (e : Error) (s : Node × PubSub)
      → Tables s.1
      → Absent up c k (on_connection_error (error_callback limit) limit up c e s).1
  unfolding on_connection_error
  on_connection_error-Absent e (n, u) h =
      drop_connection-Absent (error_callback limit) errors (error_callback-Kept (Tables-Kept limit))
        (n, forget_connection c (some e) u) (forget-Tables c (some e) u h)

-- After the callback of a connection's error, whatever failures its own sending has found, the
-- connection subscribes to no subject on its side, and the tables keep their form.
pub error_callback-member :
    (limit : ℕ) (up : Bool) (c : ℕ) (e : Error) (k : Text) (s : Node × PubSub)
    → Tables s.1
    → Tables (error_callback limit up c e s).1
      × (member c (get k (subscriptions up (error_callback limit up c e s).1)) ≡ false)
error_callback-member limit up c e k s h =
    subst (λ t. Absent up c k t.1) (sym (error_callback-on_connection_error limit up c e s))
      (on_connection_error-Absent limit up c k e s h)
