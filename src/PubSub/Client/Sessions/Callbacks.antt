-- ===== src/PubSub/Client/Sessions/Callbacks.antt =====
-- The callbacks that a function of a `PubSubClient` (software_bus/pubsub.py) leaves for each subject.
use software_bus.Prelude.{
  ℕ, ==_iff, ◌≡◌, refl, ap, ◌∙◌, arith, true, false, if◌then◌else◌, List, [], ◌∷◌, ◌++◌, member,
  remove, Result, ok, err, Error, ◌⊎◌, Bool-cases, inl, inr, Result-cases,
}
use software_bus.Text.{Text, Bytes, text_eq, text_eq_sound}
use software_bus.PubSub.Codec.{Message, subscription, encode_message}
use software_bus.PubSub.Subscriptions.{Table, get}
use software_bus.PubSub.Client.{add_registration, is_empty, remove_registration}
use software_bus.PubSub.Client.Registry.{
  IsRegistry, get-add_registration, get-drop_registration, add_registration-IsRegistry,
}
use software_bus.PubSub.Client.Sessions.{
  Session, write, send_message, set_table, first_written, begin_subscribe, fail_subscribe,
  begin_unsubscribe, resend,
}
use software_bus.PubSub.Client.Sessions.Sends.{IsWritten, write-IsWritten, send_message-IsWritten}

pub remove_absent : (c : ℕ) (xs : List ℕ) → member c xs ≡ false → remove c xs ≡ xs
unfolding member remove
remove_absent c [] h = refl
remove_absent c (x ∷ xs) h = ground (arith, remove_absent c xs)

-- The list that is got for `k`, where the callbacks of `subject` are changed.
abbrev pub got : Text → Text → (List ℕ → List ℕ) → Table → List ℕ
got subject k change t = if text_eq subject k then change (get k t) else get k t

get-remove_registration :
    (x k : Text) (c : ℕ) (t : Table)
    → IsRegistry t
    → get k (remove_registration x c t).1 ≡ got x k (remove c) t
unfolding remove_registration
get-remove_registration x k c t h = elim (Bool-cases (member c (get x t))) [
  | inl m ↦ rw m (get-drop_registration x k c t h)
  | inr m ↦ rw m (
      ground (arith, m, text_eq_sound x k, ap (λ y. member c (get y t)), remove_absent c (get k t)))
]

pub get-fail_subscribe :
    (x k : Text) (c : ℕ) (s : Session)
    → IsRegistry s.table
    → get k (fail_subscribe x c s).table ≡ got x k (remove c) s.table
unfolding fail_subscribe
get-fail_subscribe x k c s h = get-remove_registration x k c s.table h

table-send_message : (m : Message) (s : Session) → (send_message m s).1.table ≡ s.table
unfolding IsWritten
table-send_message m s = elim (send_message-IsWritten m s) [
  | inl (e, v) ↦ rw e refl
  | inr (y, e, v) ↦ rw e refl
]

pub get-begin_unsubscribe :
    (x k : Text) (c : ℕ) (s : Session)
    → IsRegistry s.table
    → get k (begin_unsubscribe x c s).1.table ≡ got x k (remove c) s.table
unfolding begin_unsubscribe
get-begin_unsubscribe x k c s h = elim (Bool-cases (remove_registration x c s.table).0) [
  | inl f ↦ rw f (
      rw
        (table-send_message (subscription x false)
          (set_table (remove_registration x c s.table).1 s))
        (get-remove_registration x k c s.table h))
  | inr f ↦ rw f (get-remove_registration x k c s.table h)
]

pub table-resend : (xs : List Text) (s : Session) → (resend xs s).1.table ≡ s.table
unfolding resend
table-resend [] s = refl
table-resend (x ∷ xs) s =
    ground (arith, table-send_message (subscription x true) (record s { resending = xs }))

-- A subscribe that raises at once leaves the callbacks as they were.
unfoldable pub Begun : Text → ℕ → Session → Result (Unit {0}) × Session → Type 0
Begun x c s r =
    ((r.0 ≡ ok tt) × ((k : Text) → get k r.1.table ≡ got x k (λ cs. cs ++ c ∷ []) s.table))
    ⊎ ((e : Error) × (r.0 ≡ err e) × ((k : Text) → get k r.1.table ≡ get k s.table))

pub get-begin_subscribe :
    (x : Text) (c : ℕ) (s : Session) → IsRegistry s.table → Begun x c s (begin_subscribe x c s)
unfolding begin_subscribe first_written IsWritten Begun
get-begin_subscribe x c s h = elim (Result-cases (encode_message (subscription x true))) [
  | inr (y, e) ↦ rw (e, begin_subscribe) (inr (y, refl, λ k. refl))
  | inl (w, e) ↦ elim (Bool-cases (is_empty (get x s.table))) [
    | inr f ↦ rw (e, begin_subscribe) (rw f (inl (refl, λ k. get-add_registration x k c s.table)))
    | inl f ↦ rw (e, begin_subscribe) (rw f (first w f))
  ]
]
  where
    t : Table
    t = add_registration x c s.table

    undone : (cs : List ℕ) → is_empty cs ≡ true → remove c (cs ++ c ∷ []) ≡ cs
    undone [] f = unfold remove in ground (arith, ==_iff c c)
    undone (d ∷ cs) f = ground arith

    first :
        (w : Bytes)
        → is_empty (get x s.table) ≡ true
        → Begun x c s (first_written x c (write (subscription x true) w (set_table t s)))
    first w f = elim (write-IsWritten (subscription x true) w (set_table t s)) [
      | inl (g, v) ↦ rw g (inl (refl, λ k. get-add_registration x k c s.table))
      | inr (y, g, v) ↦ rw g (
          inr (
            y,
            refl,
            λ k.
                get-remove_registration x k c t (add_registration-IsRegistry x c s.table h)
                ∙ ground (
                  arith,
                  f,
                  get-add_registration x k c s.table,
                  text_eq_sound x k,
                  undone (get k s.table),
                  ap (λ y. is_empty (get y s.table)),
                ),
          ))
    ]
