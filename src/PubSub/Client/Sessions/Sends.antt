-- ===== src/PubSub/Client/Sessions/Sends.antt =====
-- What a `PubSubClient` (software_bus/pubsub.py) writes in the functions of a call, and the node's
-- knowledge after them.
use software_bus.Prelude.{
  ℕ, ◌≡◌, refl, ap, arith, ◌&&◌, Bool, true, false, if◌then◌else◌, List, [], ◌∷◌, ◌++◌, length,
  Result, ok, Error, ◌⊎◌, Bool-cases, inl, inr, Result-cases,
}
use software_bus.Text.{Text, Bytes, text_eq, text_eq_sound}
use software_bus.BaseLayer.Framing.{check_payload_length}
use software_bus.PubSub.Codec.{Message, subscription, encode_message}
use software_bus.PubSub.Subscriptions.{Table, get}
use software_bus.PubSub.Subscriptions.Laws.{has_key}
use software_bus.PubSub.Client.{add_registration, is_empty, remove_registration}
use software_bus.PubSub.Client.Registry.{
  IsRegistry, add_registration-IsRegistry, remove_registration-IsRegistry,
}
use software_bus.PubSub.Client.Laws.{
  registered, registered-add, registered-has_key, registered-undone,
}
use software_bus.PubSub.Client.Sessions.{
  Session, raised, write, send_message, set_table, first_written, begin_subscribe,
  begin_unsubscribe, resend,
}
use software_bus.PubSub.Client.Sessions.Told.{
  fits, sendable, IsTold, raised-IsTold, registered-remove, known_after-append,
}

abbrev pub wrote : Message → Session → Session
wrote message s = record s { told = s.told ++ message ∷ [] }

-- Whether the message is written.
unfoldable pub IsWritten : Message → Bool → Session → Result (Unit {0}) × Session → Type 0
IsWritten message b s r =
    ((r ≡ (ok tt, wrote message s)) × ((s.connected && b) ≡ true))
    ⊎ ((e : Error) × (r ≡ raised e s) × ((s.connected && b) ≡ false))

pub write-IsWritten :
    (message : Message) (w : Bytes) (s : Session)
    → IsWritten message (fits (ok w)) s (write message w s)
unfolding write IsWritten
write-IsWritten message w s = elim (Bool-cases s.connected) [
  | inr f ↦ inr (Error.runtime_error, ground (arith, f), ground (arith, f))
  | inl f ↦ elim (Result-cases (check_payload_length (length w))) [
    | inl (u, e) ↦ inl (ground (arith, f, e), ground (arith, f, e))
    | inr (x, e) ↦ inr (x, ground (arith, f, e), ground (arith, f, e))
  ]
]

pub send_message-IsWritten :
    (message : Message) (s : Session)
    → IsWritten message (fits (encode_message message)) s (send_message message s)
unfolding send_message IsWritten
send_message-IsWritten message s = elim (Result-cases (encode_message message)) [
  | inl (w, e) ↦ rw (e, send_message) (write-IsWritten message w s)
  | inr (x, e) ↦ rw (e, send_message) (inr (x, refl, ground arith))
]

pub begin_unsubscribe-IsTold :
    (x : Text) (c : ℕ) (s : Session) → IsTold s → IsTold (begin_unsubscribe x c s).1
unfolding begin_unsubscribe IsWritten
begin_unsubscribe-IsTold x c s h = elim (Bool-cases (remove_registration x c s.table).0) [
  | inr f ↦ rw f (record {
    form = form;
    at = λ k. record {
      sent = ground (arith, removed k, (h.at k).sent);
      told = ground (arith, removed k, (h.at k).told);
      exact = ground (arith, f, removed k, (h.at k).exact);
    };
  })
  | inl f ↦ rw f (elim (send_message-IsWritten (subscription x false) (set_table t s)) [
    | inl (e, g) ↦ rw e (record {
      form = form;
      at = λ k. record {
        sent = ground (arith, removed k, (h.at k).sent);
        told =
            ground (arith, f, removed k, (h.at k).told, known_after-append k x false s.told false);
        exact =
            ground (arith, f, removed k, (h.at k).exact, known_after-append k x false s.told false);
      };
    })
    | inr (y, e, g) ↦ rw e (record {
      form = form;
      at = λ k. record {
        sent = ground (arith, removed k, (h.at k).sent);
        told = ground (arith, f, removed k, (h.at k).told);
        exact = ground arith;
      };
    })
  ])
]
  where
    t : Table
    t = (remove_registration x c s.table).1

    form : IsRegistry t
    form = remove_registration-IsRegistry x c s.table h.form

    removed :
        (k : Text)
        → registered k t ≡ (
            if (remove_registration x c s.table).0 && text_eq x k
            then false
            else registered k s.table)
    removed k = registered-remove x k c s.table h.form

pub resend-IsTold :
    (xs : List Text) (s : Session) → s.resending ≡ xs → IsTold s → IsTold (resend xs s).1
unfolding resend IsWritten sendable
resend-IsTold [] s r h = h
resend-IsTold (x ∷ xs) s r h = elim (Bool-cases (has_key x s.table)) [
  | inr f ↦ rw f (record {
    form = h.form;
    at = λ k. record {
      sent = (h.at k).sent;
      told = ground (
        arith,
        f,
        r,
        registered-has_key k s.table h.form,
        text_eq_sound x k,
        ap (λ y. has_key y s.table),
        (h.at k).told,
      );
      exact = (h.at k).exact;
    };
  })
  | inl f ↦
      rw f (elim (send_message-IsWritten (subscription x true) (record s { resending = xs })) [
        | inl (e, g) ↦ rw e (record {
          form = h.form;
          at = λ k. record {
            sent = (h.at k).sent;
            told = ground (arith, r, known_after-append k x true s.told false, (h.at k).told);
            exact = ground (
              arith,
              f,
              known_after-append k x true s.told false,
              registered-has_key k s.table h.form,
              text_eq_sound x k,
              ap (λ y. has_key y s.table),
              (h.at k).exact,
            );
          };
        })
        | inr (y, e, g) ↦ rw e (record {
          form = h.form;
          at = λ k. record {
            sent = (h.at k).sent;
            told = ground (
              arith,
              r,
              g,
              f,
              registered-has_key k s.table h.form,
              text_eq_sound x k,
              ap (λ y. fits (encode_message (subscription y true))),
              (h.at k).sent,
              (h.at k).told,
            );
            exact = ground arith;
          };
        })
      ])
]

pub begin_subscribe-IsTold :
    (x : Text) (c : ℕ) (s : Session) → IsTold s → IsTold (begin_subscribe x c s).1
unfolding begin_subscribe first_written IsWritten sendable
begin_subscribe-IsTold x c s h = elim (Result-cases (encode_message (subscription x true))) [
  | inr (y, e) ↦ rw (e, begin_subscribe) (raised-IsTold y s h)
  | inl (w, e) ↦ elim (Bool-cases (is_empty (get x s.table))) [
    | inr f ↦
        rw (e, begin_subscribe)
          (rw f (record {
            form = added;
            at = λ k. record {
              sent = ground (arith, same f k, (h.at k).sent);
              told = ground (arith, same f k, (h.at k).told);
              exact = ground (arith, same f k, (h.at k).exact);
            };
          }))
    | inl f ↦ rw (e, begin_subscribe) (rw f (first w e f))
  ]
]
  where
    t : Table
    t = add_registration x c s.table

    added : IsRegistry t
    added = add_registration-IsRegistry x c s.table h.form

    same : is_empty (get x s.table) ≡ false → (k : Text) → registered k t ≡ registered k s.table
    same f k =
        ground (arith, f, registered-add x k c s.table, text_eq_sound x k, ap (λ y. get y s.table))

    first :
        (w : Bytes)
        → encode_message (subscription x true) ≡ ok w
        → is_empty (get x s.table) ≡ true
        → IsTold (first_written x c (write (subscription x true) w (set_table t s))).1
    first w e f = elim (write-IsWritten (subscription x true) w (set_table t s)) [
      | inl (g, v) ↦ rw g (record {
        form = added;
        at = λ k. record {
          sent = ground (
            arith,
            e,
            v,
            registered-add x k c s.table,
            text_eq_sound x k,
            ap (λ y. fits (encode_message (subscription y true))),
            (h.at k).sent,
          );
          told = ground (
            arith,
            known_after-append k x true s.told false,
            registered-add x k c s.table,
            (h.at k).told,
          );
          exact = ground (
            arith,
            known_after-append k x true s.told false,
            registered-add x k c s.table,
            (h.at k).exact,
          );
        };
      })
      | inr (y, g, v) ↦ rw g (record {
        form = remove_registration-IsRegistry x c t added;
        at = λ k. record {
          sent = ground (arith, registered-undone x k c s.table h.form f, (h.at k).sent);
          told = ground (arith, registered-undone x k c s.table h.form f, (h.at k).told);
          exact = ground arith;
        };
      })
    ]
