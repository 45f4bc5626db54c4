-- ===== src/RequestReply/Waits/Proper.antt =====
-- What the requests of `RequestReplyClient` (software_bus/request_reply.py) keep to.
use software_bus.Prelude.{
  ℕ, ◌≡◌, refl, sym, ap, subst, arith, ◌∙◌, not, ◌&&◌, Bool, true, false, if◌then◌else◌, Option,
  none, some, List, [], ◌∷◌, ◌++◌, member, member-select, update, ◌==◌, ==_iff, all, Bool-cases,
  inl, inr,
}
use software_bus.RequestReply.Waits.{ReplyStatus, reply, Request, Requests, set_request, end_wait}

abbrev pub is_reply : ReplyStatus → Bool
is_reply reply = true
is_reply status = false

-- Replies, and after them at most one call of another kind.
unfoldable pub in_order : List ReplyStatus → Bool
in_order [] = true
in_order (status ∷ []) = true
in_order (status ∷ other ∷ calls) = is_reply status && in_order (other ∷ calls)

-- What a request's calls are: replies while it is pending or its last call is still to be made.
abbrev pub calls_ok : Bool → Option ReplyStatus → List ReplyStatus → Bool
calls_ok false none calls = all is_reply calls
calls_ok false (some status) calls = false
calls_ok true none calls = in_order calls
calls_ok true (some status) calls = all is_reply calls && not (is_reply status)

abbrev pub is_end : Option ReplyStatus → Bool
is_end none = true
is_end (some status) = not (is_reply status)

pub record IsProper (listed : Bool) (q : Request) : Type 0 where
  pub pending : listed ≡ (q.begun && not q.ended)
  pub called : calls_ok q.ended q.ending q.calls ≡ true
  pub later : is_end q.closed_meanwhile ≡ true
  pub once : q.unsubscribed ≡ (if q.ended then 1 else 0)

abbrev pub Proper : Requests → Type 0
Proper s = (r : ℕ) → IsProper (member r s.requests) (s.request r)

pub all-in_order : (calls : List ReplyStatus) → all is_reply calls ≡ true → in_order calls ≡ true
unfolding in_order
all-in_order [] h = refl
all-in_order (c ∷ []) h = refl
all-in_order (c ∷ d ∷ calls) h = ground (arith, h, all-in_order (d ∷ calls))

pub in_order-append :
    (calls : List ReplyStatus) (status : ReplyStatus)
    → all is_reply calls ≡ true
    → in_order (calls ++ status ∷ []) ≡ true
unfolding in_order
in_order-append [] status h = refl
in_order-append (c ∷ []) status h = ground (arith, h)
in_order-append (c ∷ d ∷ calls) status h = ground (arith, h, in_order-append (d ∷ calls) status)

pub all-append :
    (calls : List ReplyStatus)
    → all is_reply calls ≡ true
    → all is_reply (calls ++ reply ∷ []) ≡ true
all-append [] h = refl
all-append (c ∷ calls) h = ground (arith, h, all-append calls)

pub set_request-Proper :
    (r : ℕ) (q : Request) (s : Requests)
    → IsProper (member r s.requests) q
    → Proper s
    → Proper (set_request r q s)
unfolding update
set_request-Proper r q s new h d = elim (Bool-cases (r == d)) [
  | inl e ↦ simp e (subst (λ x. IsProper (member x s.requests) q) ((==_iff r d).0 e) new)
  | inr e ↦ simp e (h d)
]

pub end_wait-Proper :
    (ending : Option ReplyStatus) (r : ℕ) (s : Requests)
    → is_end ending ≡ true
    → (s.request r).ended ≡ false
    → Proper s
    → Proper (end_wait ending r s)
unfolding end_wait update
end_wait-Proper ending r s e unended h d = elim (Bool-cases (r == d)) [
  | inl same ↦ simp same (record {
    pending =
        ground
          (arith, same, member-select (λ o. not (o == r)) d s.requests, ==_iff r d, ==_iff d r);
    called = ended_calls ending (s.request r).ending (s.request r).calls e (
        ap (λ b. calls_ok b (s.request r).ending (s.request r).calls) (sym unended) ∙ (h r).called);
    later = (h r).later;
    once = ground (arith, (h r).once, unended);
  })
  | inr other ↦ simp other (record {
    pending = ground (
      arith,
      other,
      member-select (λ o. not (o == r)) d s.requests,
      (h d).pending,
      ==_iff r d,
      ==_iff d r,
    );
    called = (h d).called;
    later = (h d).later;
    once = (h d).once;
  })
]
  where
    ended_calls :
        (new old : Option ReplyStatus) (calls : List ReplyStatus)
        → is_end new ≡ true
        → calls_ok false old calls ≡ true
        → calls_ok true new calls ≡ true
    ended_calls none none calls e c = all-in_order calls c
    ended_calls (some status) none calls e c = ground (arith, e, c)
    ended_calls new (some status) calls e c = absurd (ground (arith, c))
