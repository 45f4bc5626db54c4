-- ===== src/BusCheck/Cycles/Search.antt =====
-- The search of `_tree_path` (software_bus/bus_check.py): what it has entered, and when it ends.
use software_bus.Prelude.{
  ℕ, zero, suc, ◌+◌, ◌≤◌, ◌<◌, ◌≡◌, refl, sym, ap, ◌∙◌, arith, ◌==◌, ==_iff, ==_refl, ◌&&◌, ◌||◌,
  true, false, if◌then◌else◌, some, List, [], ◌∷◌, ◌++◌, length, length-append, member,
  member-append, Bool-cases, inl, inr, ◌⊎◌,
}
use software_bus.BusCheck.Cycles.{CameFrom, visited, scan, search, walk, tree_path, ◌>>=◌}
use software_bus.BusCheck.Cycles.Spec.{LeadsTo, adjacent, Connected, here, onward}
use software_bus.BusCheck.Cycles.Walk.{IsTrail, visited-start, walk_lem}

IsTrail-cons :
    (tree : ℕ → List ℕ) (start n p : ℕ) (came : CameFrom)
    → IsTrail tree start came
    → visited n came ≡ false
    → visited p came ≡ true
    → adjacent tree p n ≡ true
    → IsTrail tree start ((n, p) ∷ came)
IsTrail-cons tree start n p [] t fresh old next = absurd t
IsTrail-cons tree start n p ((m, q) ∷ came) t fresh old next = (fresh, old, next, t)

-- How many pids have not been entered.
abbrev unvisited : List ℕ → CameFrom → ℕ
unvisited [] came = 0
unvisited (x ∷ xs) came = (if visited x came then 0 else 1) + unvisited xs came

unvisited-le : (pids : List ℕ) (came : CameFrom) → unvisited pids came ≤ length pids
unvisited-le [] came = omega arith
unvisited-le (x ∷ xs) came = ground (arith, unvisited-le xs came)

unvisited-cons-le :
    (pids : List ℕ) (n p : ℕ) (came : CameFrom)
    → unvisited pids ((n, p) ∷ came) ≤ unvisited pids came
unvisited-cons-le [] n p came = omega arith
unvisited-cons-le (x ∷ xs) n p came = ground (arith, unvisited-cons-le xs n p came)

unvisited-cons :
    (pids : List ℕ) (n p : ℕ) (came : CameFrom)
    → member n pids ≡ true
    → visited n came ≡ false
    → unvisited pids ((n, p) ∷ came) < unvisited pids came
unfolding member
unvisited-cons [] n p came m v = ground arith
unvisited-cons (x ∷ xs) n p came m v = ground (
  arith,
  unvisited-cons xs n p came,
  unvisited-cons-le xs n p came,
  ==_iff x n,
  ==_refl n,
  ap (λ y. visited y came),
)

module _ (tree : ℕ → List ℕ) (pids : List ℕ) (start : ℕ)
    (known : (x y : ℕ) → adjacent tree x y ≡ true → member y pids ≡ true) where
  -- While the neighbours `left` of `pid` are still to be looked at.
  record Scanning (pid : ℕ) (left : List ℕ) (came : CameFrom) (queue : List ℕ) : Type 0 where
    trail : IsTrail tree start came
    entered : visited pid came ≡ true
    next : (y : ℕ) → member y left ≡ true → adjacent tree pid y ≡ true
    queued : (x : ℕ) → member x queue ≡ true → visited x came ≡ true
    closed :
        (x y : ℕ)
        → visited x came ≡ true
        → adjacent tree x y ≡ true
        → (member x queue || (visited y came || (pid == x && member y left))) ≡ true

  Scanning-known :
      (pid n : ℕ) (left : List ℕ) (came : CameFrom) (queue : List ℕ)
      → visited n came ≡ true
      → Scanning pid (n ∷ left) came queue
      → Scanning pid left came queue
  unfolding member
  Scanning-known pid n left came queue v s = record {
    trail = s.trail;
    entered = s.entered;
    next = λ y m. s.next y (ground (arith, m));
    queued = s.queued;
    closed = λ x y e a. ground (arith, s.closed x y e a, v, ==_iff n y, ap (λ z. visited z came));
  }

  Scanning-new :
      (pid n : ℕ) (left : List ℕ) (came : CameFrom) (queue : List ℕ)
      → visited n came ≡ false
      → Scanning pid (n ∷ left) came queue
      → Scanning pid left ((n, pid) ∷ came) (queue ++ n ∷ [])
  unfolding member
  Scanning-new pid n left came queue v s = record {
    trail =
        IsTrail-cons tree start n pid came s.trail v s.entered
          (s.next n (ground (arith, ==_refl n)));
    entered = ground (arith, s.entered);
    next = λ y m. s.next y (ground (arith, m));
    queued = λ x m. ground (arith, m, member-append x queue (n ∷ []), s.queued x);
    closed = λ x y e a. ground (arith, e, member-append x queue (n ∷ []), s.closed x y, a);
  }

  abbrev work : CameFrom × List ℕ → ℕ
  work s = unvisited pids s.0 + length s.1

  -- When all neighbours have been looked at.
  scan_lem :
      (pid : ℕ) (left : List ℕ) (came : CameFrom) (queue : List ℕ)
      → Scanning pid left came queue
      → Scanning pid [] (scan pid left (came, queue)).0 (scan pid left (came, queue)).1
        × (work (scan pid left (came, queue)) ≤ work (came, queue))
  unfolding scan
  scan_lem pid [] came queue s = (s, omega arith)
  scan_lem pid (n ∷ left) came queue s = elim (Bool-cases (visited n came)) [
    | inl v ↦ rw (v, scan) (scan_lem pid left came queue (Scanning-known pid n left came queue v s))
    | inr v ↦
        let (t, w) =
          scan_lem pid left ((n, pid) ∷ came) (queue ++ n ∷ [])
            (Scanning-new pid n left came queue v s) in
        let fewer =
          unvisited-cons pids n pid came
            (known pid n (s.next n (unfold member in ground (arith, ==_refl n)))) v in
        rw (v, scan) (t, omega (arith, w, fewer, length-append queue (n ∷ [])))
  ]

  -- What is entered when the search ends.
  abbrev Ended : ℕ → CameFrom → Type 0
  Ended end came =
      (visited end came ≡ true)
      ⊎ ((x y : ℕ) → visited x came ≡ true → adjacent tree x y ≡ true → visited y came ≡ true)

  popped :
      (pid n : ℕ) (came : CameFrom) (queue : List ℕ)
      → Scanning pid [] came (n ∷ queue)
      → Scanning n (tree n) came queue
  unfolding member
  popped pid n came queue s = record {
    trail = s.trail;
    entered = s.queued n (ground (arith, ==_refl n));
    next = λ y m. m;
    queued = λ x m. s.queued x (ground (arith, m));
    closed =
        λ x y e a. ground (arith, s.closed x y e a, a, ==_iff n x, ap (λ z. member y (tree z)));
  }

  started : Scanning start [] ((start, start) ∷ []) (start ∷ [])
  unfolding member
  started = record {
    trail = (refl, refl);
    entered = ground (arith, ==_refl start);
    next = λ y m. ground (arith, m);
    queued = λ x m. ground (arith, m);
    closed = λ x y e a. ground (arith, e);
  }

  -- The pids that are connected to the start have been entered, once all neighbours have.
  entered-Connected :
      (came : CameFrom)
      → visited start came ≡ true
      → ((x y : ℕ) → visited x came ≡ true → adjacent tree x y ≡ true → visited y came ≡ true)
      → {end : ℕ} → Connected (adjacent tree) start end
      → visited end came ≡ true
  entered-Connected came v closed here = v
  entered-Connected came v closed (onward {b} {c} r a) =
      closed b c (entered-Connected came v closed r) a

  entered-end :
      (end : ℕ) (came : CameFrom)
      → IsTrail tree start came
      → (visited end came ≡ true)
        ⊎ ((x y : ℕ) → visited x came ≡ true → adjacent tree x y ≡ true → visited y came ≡ true)
      → Connected (adjacent tree) start end
      → visited end came ≡ true
  entered-end end came t (inl v) c = v
  entered-end end came t (inr closed) c =
      entered-Connected came (visited-start tree start came t) closed c

  search_lem :
      (fuel end pid : ℕ) (came : CameFrom) (queue : List ℕ)
      → Scanning pid [] came queue
      → work (came, queue) < fuel
      → (came' : CameFrom) × (search fuel tree end (came, queue) ≡ some came')
        × IsTrail tree start came'
        × Ended end came'
  unfolding search
  search_lem zero end pid came queue s h = absurd (ground arith)
  search_lem (suc fuel) end pid came [] s h =
      (came, refl, s.trail, inr (λ x y e a. unfold member in ground (arith, s.closed x y e a)))
  search_lem (suc fuel) end pid came (n ∷ queue) s h = elim (Bool-cases (n == end)) [
    | inl e ↦ (
      came,
      rw e,
      s.trail,
      inl (
          ap (λ x. visited x came) (sym ((==_iff n end).0 e))
          ∙ s.queued n (unfold member in ground (arith, ==_refl n))),
    )
    | inr e ↦
        let (t, w) = scan_lem n (tree n) came queue (popped pid n came queue s) in
        let next = scan n (tree n) (came, queue) in
        let (came', found, trail, ended) =
          search_lem fuel end n next.0 next.1 t (omega (arith, h, w)) in
        (came', simp e found, trail, ended)
  ]

-- With fuel for each pid, `tree_path` finds a path between connected pids, joined along the tree.
pub tree_path_lem :
    (tree : ℕ → List ℕ) (pids : List ℕ) (start end fuel : ℕ)
    → ((x y : ℕ) → adjacent tree x y ≡ true → member y pids ≡ true)
    → Connected (adjacent tree) start end
    → 2 + length pids ≤ fuel
    → (rest : List ℕ) × (tree_path fuel tree start end ≡ some (start ∷ rest))
      × LeadsTo (adjacent tree) start end rest
unfolding tree_path
tree_path_lem tree pids start end fuel known c h =
    let (came, found, trail, ended) =
      search_lem tree pids start known fuel end start ((start, start) ∷ []) (start ∷ [])
        (started tree pids start known)
        (omega (arith, h, unvisited-le pids ((start, start) ∷ []))) in
    let (rest, back, leads) =
      walk_lem tree start came end end [] (length came) trail
        (entered-end tree pids start known end came trail ended c) refl (omega arith) in
    (rest, ap (λ r. r >>= λ (x : CameFrom). walk (length x) x start end []) found ∙ back, leads)
