-- ===== src/PubSub/Query/Laws.antt =====
-- What `_Query` (software_bus/pubsub.py) makes of its replies.
use software_bus.Prelude.{
  ℕ, ◌≡◌, ◌≢◌, refl, sym, ap, ◌∙◌, arith, not, ◌&&◌, ◌||◌, Bool, true, false, if◌then◌else◌, Option,
  none, some, List, [], ◌∷◌, member, select, ◌==◌, ==_iff, ==_refl, Bool-cases, inl, inr, any, all,
}
use software_bus.PubSub.Codec.{ReachabilityResult, found, not_found, unknown, result_value}
use software_bus.PubSub.Query.{Query, new_query, is_some, discard, record_reply, reply, replies}

abbrev Log : Type 0
Log = List (ℕ × ReachabilityResult)

abbrev pub first_reply : ℕ → Log → Option ReachabilityResult
first_reply c [] = none
first_reply c ((d, r) ∷ log) = if d == c then some r else first_reply c log

abbrev pub is_answer : ReachabilityResult → Option ReachabilityResult → Bool
is_answer r none = false
is_answer r (some s) = result_value r == result_value s

abbrev pub replied : Option ReachabilityResult → Bool
replied none = false
replied (some r) = true

abbrev pub answers : ReachabilityResult → Log → ℕ → Bool
answers r log c = is_answer r (first_reply c log)

-- What the first replies of the waited-for connections come to.
abbrev pub combined : List ℕ → Bool → Log → Option ReachabilityResult
combined waiting saw log =
    if any (answers found log) waiting
    then some found
    else if all (λ c. replied (first_reply c log)) waiting
    then some (if saw || any (answers unknown log) waiting then unknown else not_found)
    else none

any-discard :
    (p p' : ℕ → Bool) (c : ℕ) (cs : List ℕ)
    → ((d : ℕ) → (c == d) ≡ false → p d ≡ p' d)
    → any p cs ≡ ((member c cs && p c) || any p' (discard c cs))
unfolding member select
any-discard p p' c [] h = refl
any-discard p p' c (d ∷ cs) h =
    ground (arith, any-discard p p' c cs h, h d, ==_iff c d, ==_iff d c, ap p)

all-discard :
    (p p' : ℕ → Bool) (c : ℕ) (cs : List ℕ)
    → ((d : ℕ) → (c == d) ≡ false → p d ≡ p' d)
    → all p cs ≡ ((not (member c cs) || p c) && all p' (discard c cs))
unfolding member select
all-discard p p' c [] h = refl
all-discard p p' c (d ∷ cs) h =
    ground (arith, all-discard p p' c cs h, h d, ==_iff c d, ==_iff d c, ap p)

discard_absent : (c : ℕ) (cs : List ℕ) → member c cs ≡ false → discard c cs ≡ cs
unfolding member select
discard_absent c [] h = refl
discard_absent c (d ∷ cs) h = ground (arith, discard_absent c cs)

first_reply_ne :
    (c d : ℕ) (r : ReachabilityResult) (log : Log)
    → (c == d) ≡ false
    → first_reply d ((c, r) ∷ log) ≡ first_reply d log
first_reply_ne c d r log h = rw h

-- One more reply at the front, told apart by whether it is waited for.
any_step :
    (s r : ReachabilityResult) (c : ℕ) (log : Log) (cs : List ℕ)
    → any (answers s ((c, r) ∷ log)) cs
      ≡ ((member c cs && (result_value s == result_value r)) || any (answers s log) (discard c cs))
any_step s r c log cs =
    any-discard (answers s ((c, r) ∷ log)) (answers s log) c cs
      (λ d h. ap (is_answer s) (first_reply_ne c d r log h))
    ∙ rw (==_refl c)

all_step :
    (r : ReachabilityResult) (c : ℕ) (log : Log) (cs : List ℕ)
    → all (λ d. replied (first_reply d ((c, r) ∷ log))) cs
      ≡ all (λ d. replied (first_reply d log)) (discard c cs)
all_step r c log cs =
    all-discard (λ d. replied (first_reply d ((c, r) ∷ log))) (λ d. replied (first_reply d log)) c
      cs (λ d h. ap replied (first_reply_ne c d r log h))
    ∙ (rw (==_refl c) (ground arith))

abbrev open_query : List ℕ → List ℕ → Bool → Query
open_query ts waiting saw = record {
  targets = ts;
  waiting = waiting;
  saw_unknown = saw;
  result = none;
}

reply_done : (c : ℕ) (s r : ReachabilityResult) (q : Query) → q.result ≡ some r → reply c s q ≡ q
unfolding reply
reply_done c s r q h = rw (ap is_some h)

replies_done :
    (log : Log) (q : Query) (r : ReachabilityResult)
    → q.result ≡ some r
    → (replies log q).result ≡ some r
unfolding replies
replies_done [] q r h = h
replies_done ((c, s) ∷ log) q r h =
    ap (λ x. (replies log x).result) (reply_done c s r q h) ∙ replies_done log q r h

any_nil : (r : ReachabilityResult) (cs : List ℕ) → any (answers r []) cs ≡ false
any_nil r [] = refl
any_nil r (c ∷ cs) = any_nil r cs

reply_stranger :
    (ts cs : List ℕ) (saw : Bool) (c : ℕ) (r : ReachabilityResult)
    → member c cs ≡ false
    → reply c r (open_query ts cs saw) ≡ open_query ts cs saw
unfolding reply
reply_stranger ts cs saw c r h = rw h

reply_awaited :
    (ts cs : List ℕ) (saw : Bool) (c : ℕ) (r : ReachabilityResult)
    → member c cs ≡ true
    → reply c r (open_query ts cs saw) ≡ record_reply r (discard c cs) (open_query ts cs saw)
unfolding reply
reply_awaited ts cs saw c r h = rw h

combined_stranger :
    (cs : List ℕ) (saw : Bool) (c : ℕ) (r : ReachabilityResult) (log : Log)
    → member c cs ≡ false
    → combined cs saw ((c, r) ∷ log) ≡ combined cs saw log
combined_stranger cs saw c r log h = ground (
  arith,
  any_step found r c log cs,
  any_step unknown r c log cs,
  all_step r c log cs,
  ap (any (answers found log)) (discard_absent c cs h),
  ap (any (answers unknown log)) (discard_absent c cs h),
  ap (all (λ d. replied (first_reply d log))) (discard_absent c cs h),
)

-- The replies after one that is waited for.
combined_rest : ReachabilityResult → List ℕ → Bool → Log → Option ReachabilityResult
combined_rest found cs saw log = some found
combined_rest unknown cs saw log = combined cs true log
combined_rest not_found cs saw log = combined cs saw log

combined_awaited :
    (cs : List ℕ) (saw : Bool) (c : ℕ) (r : ReachabilityResult) (log : Log)
    → member c cs ≡ true
    → combined cs saw ((c, r) ∷ log) ≡ combined_rest r (discard c cs) saw log
unfolding combined_rest
combined_awaited cs saw c found log h = ground (arith, any_step found found c log cs)
combined_awaited cs saw c unknown log h = ground (
  arith,
  any_step found unknown c log cs,
  any_step unknown unknown c log cs,
  all_step unknown c log cs,
)
combined_awaited cs saw c not_found log h = ground (
  arith,
  any_step found not_found c log cs,
  any_step unknown not_found c log cs,
  all_step not_found c log cs,
)

replies_after :
    (log : Log) (ts : List ℕ) (saw : Bool) (r : ReachabilityResult) (cs rest : List ℕ)
    → ((cs : List ℕ) (s : Bool)
        → cs ≢ []
        → (replies log (open_query ts cs s)).result ≡ combined cs s log)
    → (replies log (record_reply r rest (open_query ts cs saw))).result
      ≡ combined_rest r rest saw log
unfolding combined_rest
replies_after log ts saw found cs rest ih = replies_done log _ found refl
replies_after log ts saw unknown cs [] ih = replies_done log _ unknown refl
replies_after log ts saw unknown cs (d ∷ rest) ih = ih (d ∷ rest) true (λ e. ground arith)
replies_after log ts saw not_found cs [] ih =
    replies_done log _ (if saw then unknown else not_found) refl ∙ ground arith
replies_after log ts saw not_found cs (d ∷ rest) ih = ih (d ∷ rest) saw (λ e. ground arith)

-- An open query that waits for somebody comes to what is still to be replied.
replies_open :
    (log : Log) (ts cs : List ℕ) (saw : Bool)
    → cs ≢ []
    → (replies log (open_query ts cs saw)).result ≡ combined cs saw log
unfolding replies combined_rest
replies_open [] ts [] saw h = absurd (h refl)
replies_open [] ts (c ∷ cs) saw h = simp (any_nil found cs)
replies_open ((c, r) ∷ log) ts cs saw h = elim (Bool-cases (member c cs)) [
  | inr e ↦
      ap (λ q. (replies log q).result) (reply_stranger ts cs saw c r e)
      ∙ replies_open log ts cs saw h
      ∙ sym (combined_stranger cs saw c r log e)
  | inl e ↦
      ap (λ q. (replies log q).result) (reply_awaited ts cs saw c r e)
      ∙ replies_after log ts saw r cs (discard c cs) (λ rest saw. replies_open log ts rest saw)
      ∙ sym (combined_awaited cs saw c r log e)
]

-- Whatever the order of the replies, with repeated ones and ones of other connections among them,
-- the result of a query with a target is: found once some target's first reply is found; else none
-- until each target has replied; then unknown if some target's first reply is unknown, else
-- not found.
pub result-replies :
    (log : Log) (targets : List ℕ)
    → targets ≢ []
    → (replies log (new_query targets)).result ≡ combined targets false log
result-replies log targets h = replies_open log targets targets false h
