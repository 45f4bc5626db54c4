-- ===== src/RequestReply/Acceptors/Kept.antt =====
-- What the calls of a `RequestReplyClient` (software_bus/request_reply.py) leave of the registrations
-- of its acceptors.
use software_bus.Prelude.{
  ℕ, ==_iff, ◌≡◌, ◌≢◌, refl, sym, ap, subst, subst₂, ◌∙◌, arith, ◌==◌, not, ◌&&◌, ◌||◌, Bool, true,
  false, if◌then◌else◌, List, [], ◌∷◌, ◌++◌, member, remove, member-append, member-remove_ne,
  Option, none, some, ◌⊎◌, Bool-cases, inl, inr,
}
use software_bus.Text.{Text, text_eq, text_eq_sound, text_eq_refl}
use software_bus.RequestReply.{derived_request_subject}
use software_bus.PubSub.Subscriptions.{Table, get}
use software_bus.PubSub.Client.Sessions.{Session}
use software_bus.PubSub.Client.Sessions.Told.{IsTold, new_session-IsTold}
use software_bus.PubSub.Client.Sessions.Callbacks.{got}
use software_bus.RequestReply.Acceptors.{Acceptors, no_acceptors, set_session}

abbrev pub twice : ℕ → List ℕ → Bool
twice n cs = member n (remove n cs)

-- `n` is in both lists, or twice in both, or neither.
abbrev pub Same : ℕ → List ℕ → List ℕ → Type 0
Same n cs cs' = (member n cs' ≡ member n cs) × (twice n cs' ≡ twice n cs)

twice-append : (m n : ℕ) (cs : List ℕ) → m ≢ n → twice n (cs ++ m ∷ []) ≡ twice n cs
unfolding member remove
twice-append m n [] h = ground arith
twice-append m n (x ∷ cs) h = ground (arith, twice-append m n cs h, member-append n cs (m ∷ []))

twice-remove : (m n : ℕ) (cs : List ℕ) → m ≢ n → twice n (remove m cs) ≡ twice n cs
unfolding member remove
twice-remove m n [] h = refl
twice-remove m n (x ∷ cs) h =
    ground (arith, twice-remove m n cs h, member-remove_ne m n cs h, ==_iff x m, ==_iff x n)

pub append-Same :
    (x k : Text) (m n : ℕ) (t : Table) → m ≢ n → Same n (get k t) (got x k (λ cs. cs ++ m ∷ []) t)
append-Same x k m n t h = elim (Bool-cases (text_eq x k)) [
  | inl e ↦ rw e (
    member-append n (get k t) (m ∷ []) ∙ unfold member in ground arith,
    twice-append m n (get k t) h,
  )
  | inr e ↦ rw e (refl, refl)
]

pub remove-Same :
    (x k : Text) (m n : ℕ) (t : Table) → m ≢ n → Same n (get k t) (got x k (remove m) t)
remove-Same x k m n t h = elim (Bool-cases (text_eq x k)) [
  | inl e ↦ rw e (member-remove_ne m n (get k t) h, twice-remove m n (get k t) h)
  | inr e ↦ rw e (refl, refl)
]

abbrev pub is_acceptor : ℕ → Option ℕ → Bool
is_acceptor n none = false
is_acceptor n (some m) = m == n

which_acceptor : (n : ℕ) (v : Option ℕ) → is_acceptor n v ≡ true → v ≡ some n
which_acceptor n none e = absurd (ground (arith, e))
which_acceptor n (some m) e = ground (arith, e, ==_iff m n)

-- What the `on_request` with a number has been made with, `none` for another callback.
module _ (captured : ℕ → Option (Text × ℕ)) where
  -- The `on_request` of an acceptor is registered for its subject, once; and no other `on_request`
  -- is registered, unless calls have crossed.
  pub record At (a : Acceptors) (rs : Text) (c n : ℕ) : Type 0 where
    pub own : a.acceptors rs c ≡ some n → captured n ≡ some (rs, c)
    pub accepting :
        (not (is_acceptor n (a.acceptors rs c))
          || member n (get (derived_request_subject rs) a.session.table))
        ≡ true
    pub once :
        captured n ≡ some (rs, c)
        → twice n (get (derived_request_subject rs) a.session.table) ≡ false
    pub stopped :
        captured n ≡ some (rs, c)
        → (a.crossed
            || not (member n (get (derived_request_subject rs) a.session.table))
            || is_acceptor n (a.acceptors rs c))
          ≡ true

  pub record IsKept (a : Acceptors) : Type 0 where
    pub told : IsTold a.session
    pub at : (rs : Text) (c n : ℕ) → At a rs c n

  pub no_acceptors-IsKept : IsKept no_acceptors
  unfolding get member remove
  no_acceptors-IsKept = record {
    told = new_session-IsTold;
    at = λ rs c n. record {
      own = λ e. absurd (ground (arith, e));
      accepting = refl;
      once = λ e. refl;
      stopped = λ e. refl;
    };
  }

  -- Another callback's registrations change.
  pub set_session-IsKept :
      (s : Session) (a : Acceptors)
      → IsTold s
      → ((k : Text) (rs : Text) (c n : ℕ)
          → captured n ≡ some (rs, c)
          → Same n (get k a.session.table) (get k s.table))
      → IsKept a
      → IsKept (set_session s a)
  set_session-IsKept s a told same h = record {
    told = told;
    at = λ rs c n. record {
      own = (h.at rs c n).own;
      accepting = elim (Bool-cases (is_acceptor n (a.acceptors rs c))) [
        | inl e ↦
            let q = (h.at rs c n).own (which_acceptor n (a.acceptors rs c) e) in
            ground (arith, same (derived_request_subject rs) rs c n q, (h.at rs c n).accepting)
        | inr e ↦ rw e refl
      ];
      once = λ e. ground (arith, same (derived_request_subject rs) rs c n e, (h.at rs c n).once e);
      stopped =
          λ e. ground (arith, same (derived_request_subject rs) rs c n e, (h.at rs c n).stopped e);
    };
  }

  -- The entry of `rs₀` and `c₀`, and the registrations of an `on_request` that was made with them,
  -- change.
  module _ (rs₀ : Text) (c₀ n₀ : ℕ) (v : Option ℕ) (a a' : Acceptors) where
    pub record Change : Type 0 where
      pub told : IsTold a'.session
      pub made : captured n₀ ≡ some (rs₀, c₀)
      pub entry :
          (rs : Text) (c : ℕ)
          → a'.acceptors rs c ≡ (if text_eq rs₀ rs && c₀ == c then v else a.acceptors rs c)
      pub same :
          (k : Text) (n : ℕ) → n₀ ≢ n → Same n (get k a.session.table) (get k a'.session.table)
      pub none_or : (v ≡ none) ⊎ (v ≡ some n₀)
      pub accepting :
          (not (is_acceptor n₀ v) || member n₀ (get (derived_request_subject rs₀) a'.session.table))
          ≡ true
      pub once : twice n₀ (get (derived_request_subject rs₀) a'.session.table) ≡ false
      pub stopped :
          (a'.crossed
            || not (member n₀ (get (derived_request_subject rs₀) a'.session.table))
            || is_acceptor n₀ v)
          ≡ true
      pub others :
          (n : ℕ)
          → n₀ ≢ n
          → captured n ≡ some (rs₀, c₀)
          → (a'.crossed || not (member n (get (derived_request_subject rs₀) a.session.table)))
            ≡ true
      pub crossing : (not a.crossed || a'.crossed) ≡ true

    at_entry : Change → a'.acceptors rs₀ c₀ ≡ v
    at_entry d = ground (arith, d.entry rs₀ c₀, text_eq_refl rs₀, ==_iff c₀ c₀)

    -- At the entry, for the `on_request` and for another one.
    Change-At_self : Change → At a' rs₀ c₀ n₀
    Change-At_self d = record {
      own = λ g. d.made;
      accepting = rw (at_entry d) d.accepting;
      once = λ g. d.once;
      stopped = λ g. rw (at_entry d) d.stopped;
    }

    Change-At_ne : Change → IsKept a → (n : ℕ) → n₀ ≢ n → At a' rs₀ c₀ n
    Change-At_ne d h n f = record {
      own = λ g. absurd (ground (arith, g, at_entry d, d.none_or, f));
      accepting = ground (arith, at_entry d, d.none_or, f, ==_iff n₀ n);
      once = λ g. ground (arith, d.same (derived_request_subject rs₀) n f, (h.at rs₀ c₀ n).once g);
      stopped = λ g. ground (arith, d.same (derived_request_subject rs₀) n f, d.others n f g);
    }

    Change-At_elsewhere :
        Change
        → IsKept a
        → (rs : Text) (c n : ℕ) → (text_eq rs₀ rs && c₀ == c) ≡ false
        → At a' rs c n
    Change-At_elsewhere d h rs c n e = record {
      own = λ g. (h.at rs c n).own (sym there ∙ g);
      accepting = elim (Bool-cases (is_acceptor n (a.acceptors rs c))) [
        | inl q ↦ ground (
          arith,
          q,
          there,
          d.same (derived_request_subject rs) n
              (differs ((h.at rs c n).own (which_acceptor n (a.acceptors rs c) q))),
          (h.at rs c n).accepting,
        )
        | inr q ↦ rw there (rw q refl)
      ];
      once = λ g.
          ground (arith, d.same (derived_request_subject rs) n (differs g), (h.at rs c n).once g);
      stopped = λ g. ground (
        arith,
        there,
        d.same (derived_request_subject rs) n (differs g),
        (h.at rs c n).stopped g,
        d.crossing,
      );
    }
      where
        there : a'.acceptors rs c ≡ a.acceptors rs c
        there = ground (arith, e, d.entry rs c)

        differs : captured n ≡ some (rs, c) → n₀ ≢ n
        differs g z = ground (arith, e, g, ap captured z, d.made, text_eq_refl rs, ==_iff c c)

    pub Change-IsKept : Change → IsKept a → IsKept a'
    Change-IsKept d h = record {
      told = d.told;
      at = λ rs c n. elim (Bool-cases (text_eq rs₀ rs && c₀ == c)) [
        | inl e ↦
            subst₂ (λ x y. At a' x y n) (ground (arith, e, text_eq_sound rs₀ rs))
              (ground (arith, e, ==_iff c₀ c))
              (elim (Bool-cases (n₀ == n)) [
                | inl f ↦
                    subst (λ m. At a' rs₀ c₀ m) (ground (arith, f, ==_iff n₀ n)) (Change-At_self d)
                | inr f ↦ Change-At_ne d h n (λ z. ground (arith, f, z, ==_iff n₀ n))
              ])
        | inr e ↦ Change-At_elsewhere d h rs c n e
      ];
    }
