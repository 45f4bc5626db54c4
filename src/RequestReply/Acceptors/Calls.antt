-- ===== src/RequestReply/Acceptors/Calls.antt =====
-- What the calls of `accept_request` and `stop_accept_request` (software_bus/request_reply.py) leave of
-- the registrations of the acceptors.
use software_bus.Prelude.{
  ℕ, ==_iff, ◌≡◌, ◌≢◌, refl, ap, ◌∙◌, arith, ◌==◌, not, ◌&&◌, ◌||◌, true, false, if◌then◌else◌,
  List, [], ◌∷◌, ◌++◌, member, remove, member-append, Option, none, some, Option-cases, Result, ok,
  err, Error, inl, inr, Result-cases,
}
use software_bus.Text.{Text, text_eq, text_eq_sound, text_eq_refl}
use software_bus.RequestReply.{derived_request_subject, check_derived_subject}
use software_bus.PubSub.Subscriptions.{Table, get}
use software_bus.PubSub.Client.Sessions.{Session, begin_subscribe}
use software_bus.PubSub.Client.Sessions.Told.{IsTold, fail_subscribe-IsTold}
use software_bus.PubSub.Client.Sessions.Sends.{begin_subscribe-IsTold, begin_unsubscribe-IsTold}
use software_bus.PubSub.Client.Sessions.Callbacks.{
  got, remove_absent, Begun, get-begin_subscribe, get-fail_subscribe, get-begin_unsubscribe,
}
use software_bus.RequestReply.Acceptors.{
  Acceptors, set_acceptor, set_session, subscribed, begin_accept, fail_accept, begin_stop,
}
use software_bus.RequestReply.Acceptors.Kept.{
  twice, append-Same, remove-Same, IsKept, Change-IsKept,
}

got_self : (x : Text) (f : List ℕ → List ℕ) (t : Table) → got x x f t ≡ f (get x t)
got_self x f t = rw (text_eq_refl x) refl

twice-append_self : (n : ℕ) (cs : List ℕ) → member n cs ≡ false → twice n (cs ++ n ∷ []) ≡ false
unfolding member remove
twice-append_self n [] h = ground (arith, ==_iff n n)
twice-append_self n (x ∷ cs) h = ground (arith, twice-append_self n cs)

member-append_self : (n : ℕ) (cs : List ℕ) → member n (cs ++ n ∷ []) ≡ true
member-append_self n cs = member-append n cs (n ∷ []) ∙ unfold member in ground (arith, ==_iff n n)

twice-remove_self : (n : ℕ) (cs : List ℕ) → twice n cs ≡ false → twice n (remove n cs) ≡ false
twice-remove_self n cs h = rw (remove_absent n (remove n cs) h) h

module _ (captured : ℕ → Option (Text × ℕ)) (rs : Text) (c : ℕ) (a : Acceptors) where
  abbrev subject : Text
  subject = derived_request_subject rs

  -- A registration of `n` goes, and the entry with it.
  removed-IsKept :
      (n : ℕ) (a' : Acceptors)
      → captured n ≡ some (rs, c)
      → IsTold a'.session
      → ((rs' : Text) (c' : ℕ)
          → a'.acceptors rs' c' ≡ (if text_eq rs rs' && c == c' then none else a.acceptors rs' c'))
      → ((k : Text) → get k a'.session.table ≡ got subject k (remove n) a.session.table)
      → ((m : ℕ)
          → n ≢ m
          → captured m ≡ some (rs, c)
          → (a'.crossed || not (member m (get subject a.session.table))) ≡ true)
      → (not a.crossed || a'.crossed) ≡ true
      → IsKept captured a
      → IsKept captured a'
  removed-IsKept n a' made told entry gets others crossing h =
      Change-IsKept captured rs c n none a a'
        (record {
          told = told;
          made = made;
          entry = entry;
          same = λ k m ne. rw (gets k) (remove-Same subject k n m a.session.table ne);
          none_or = inl refl;
          accepting = refl;
          once =
              rw whole
                (twice-remove_self n (get subject a.session.table) ((h.at rs c n).once made));
          stopped = ground (arith, ap (member n) whole, (h.at rs c n).once made);
          others = others;
          crossing = crossing;
        })
        h
    where
      whole : get subject a'.session.table ≡ remove n (get subject a.session.table)
      whole = gets subject ∙ got_self subject (remove n) a.session.table

  -- A new `on_request` is not registered yet.
  subscribed-IsKept :
      (n : ℕ)
      → captured n ≡ some (rs, c)
      → member n (get subject a.session.table) ≡ false
      → a.acceptors rs c ≡ none
      → IsKept captured a
      → IsKept captured
          (subscribed rs c (begin_subscribe subject n a.session) (set_acceptor rs c (some n) a)).1
  unfolding Begun
  subscribed-IsKept n made new f h =
      by_result (begin_subscribe subject n a.session)
        (begin_subscribe-IsTold subject n a.session h.told)
        (get-begin_subscribe subject n a.session h.told.form)
    where
      others :
          (m : ℕ)
          → n ≢ m
          → captured m ≡ some (rs, c)
          → (a.crossed || not (member m (get subject a.session.table))) ≡ true
      others m ne g = ground (arith, f, (h.at rs c m).stopped g)

      registered :
          (s : Session)
          → IsTold s
          → ((k : Text) → get k s.table ≡ got subject k (λ cs. cs ++ n ∷ []) a.session.table)
          → IsKept captured (set_session s (set_acceptor rs c (some n) a))
      registered s told gets =
          unfold set_acceptor in
          let whole : get subject s.table ≡ get subject a.session.table ++ n ∷ [] =
            gets subject ∙ got_self subject (λ cs. cs ++ n ∷ []) a.session.table in
          let there : member n (get subject s.table) ≡ true =
            ap (member n) whole ∙ member-append_self n (get subject a.session.table) in
          Change-IsKept captured rs c n (some n) a _
            (record {
              told = told;
              made = made;
              entry = λ rs' c'. refl;
              same = λ k m ne. rw (gets k) (append-Same subject k n m a.session.table ne);
              none_or = inr refl;
              accepting = ground (arith, there);
              once = rw whole (twice-append_self n (get subject a.session.table) new);
              stopped = ground (arith, ==_iff n n);
              others = others;
              crossing = ground arith;
            })
            h

      untouched :
          (s : Session)
          → IsTold s
          → ((k : Text) → get k s.table ≡ get k a.session.table)
          → IsKept captured (set_acceptor rs c none (set_session s (set_acceptor rs c (some n) a)))
      untouched s told gets =
          unfold set_acceptor in
          Change-IsKept captured rs c n none a _
            (record {
              told = told;
              made = made;
              entry = λ rs' c'. ground arith;
              same = λ k m ne. (ap (member m) (gets k), ap (twice m) (gets k));
              none_or = inl refl;
              accepting = refl;
              once = rw (gets subject) ((h.at rs c n).once made);
              stopped = ground (arith, new, ap (member n) (gets subject));
              others = others;
              crossing = ground arith;
            })
            h

      by_result :
          (r : Result (Unit {0}) × Session)
          → IsTold r.1
          → Begun subject n a.session r
          → IsKept captured (subscribed rs c r (set_acceptor rs c (some n) a)).1
      by_result (ok u, s) told (inl (e, gets)) = unfold subscribed in registered s told gets
      by_result (ok u, s) told (inr (x, e, gets)) = absurd (ground (arith, e))
      by_result (err x, s) told (inl (e, gets)) = absurd (ground (arith, e))
      by_result (err x, s) told (inr (y, e, gets)) = unfold subscribed in untouched s told gets

  pub begin_accept-IsKept :
      (n : ℕ)
      → captured n ≡ some (rs, c)
      → member n (get subject a.session.table) ≡ false
      → IsKept captured a
      → IsKept captured (begin_accept rs c n a).1
  unfolding begin_accept
  begin_accept-IsKept n made new h = elim (Result-cases (check_derived_subject rs subject)) [
    | inr (y, e) ↦ rw (e, begin_accept) h
    | inl (u, e) ↦ elim (Option-cases (a.acceptors rs c)) [
      | inr (m, f) ↦ rw (e, begin_accept) (rw f h)
      | inl f ↦ rw (e, begin_accept) (rw f (subscribed-IsKept n made new f h))
    ]
  ]

  pub fail_accept-IsKept :
      (n : ℕ) (x : Error)
      → captured n ≡ some (rs, c)
      → IsKept captured a
      → IsKept captured (fail_accept rs c n x a).1
  unfolding fail_accept set_acceptor
  fail_accept-IsKept n x made h = elim (Option-cases (a.acceptors rs c)) [
    | inl f ↦
        rw (f, fail_accept)
          (removed-IsKept n _ made (fail_subscribe-IsTold subject n a.session h.told)
            (λ rs' c'. ground (
              arith,
              f,
              text_eq_sound rs rs',
              ==_iff c c',
              ap (λ y. a.acceptors y c),
              ap (a.acceptors rs'),
            ))
            (λ k. get-fail_subscribe subject k n a.session h.told.form)
            (λ m ne g. ground (arith, f, (h.at rs c m).stopped g)) (ground arith) h)
    | inr (m, f) ↦
        rw (f, fail_accept)
          (removed-IsKept n _ made (fail_subscribe-IsTold subject n a.session h.told)
            (λ rs' c'. refl) (λ k. get-fail_subscribe subject k n a.session h.told.form)
            (λ m' ne g. ground (arith, f, (h.at rs c m').stopped g, ==_iff m n, ==_iff m m'))
            (ground arith) h)
  ]

  pub begin_stop-IsKept : IsKept captured a → IsKept captured (begin_stop rs c a).1
  unfolding begin_stop set_acceptor
  begin_stop-IsKept h = elim (Result-cases (check_derived_subject rs subject)) [
    | inr (y, e) ↦ rw (e, begin_stop) h
    | inl (u, e) ↦ elim (Option-cases (a.acceptors rs c)) [
      | inl f ↦ rw (e, begin_stop) (rw f h)
      | inr (n, f) ↦
          rw (e, begin_stop)
            (rw f (
              removed-IsKept n _ ((h.at rs c n).own f)
                (begin_unsubscribe-IsTold subject n a.session h.told) (λ rs' c'. refl)
                (λ k. get-begin_unsubscribe subject k n a.session h.told.form)
                (λ m ne g. ground (arith, f, ne, (h.at rs c m).stopped g, ==_iff n m))
                (ground arith) h))
    ]
  ]
