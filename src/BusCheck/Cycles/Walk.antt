-- ===== src/BusCheck/Cycles/Walk.antt =====
-- The way back of `_tree_path` (software_bus/bus_check.py), along `came_from`.
use software_bus.Prelude.{
  ℕ, zero, suc, ◌≤◌, ◌≡◌, refl, ap, subst, ◌∙◌, arith, ◌==◌, ==_iff, true, false, some, List, [],
  ◌∷◌, length, Bool-cases, Option-cases, inl, inr,
}
use software_bus.BusCheck.Cycles.{CameFrom, came_from, visited, walk}
use software_bus.BusCheck.Cycles.Spec.{LeadsTo, adjacent}

-- Each pid was entered once, from a neighbour that had been entered before.
abbrev pub IsTrail : (ℕ → List ℕ) → ℕ → CameFrom → Type 0
IsTrail tree start [] = ⊥
IsTrail tree start ((n, p) ∷ []) = (n ≡ start) × (p ≡ start)
IsTrail tree start ((n, p) ∷ (m, q) ∷ came) =
    (visited n ((m, q) ∷ came) ≡ false)
    × (visited p ((m, q) ∷ came) ≡ true)
    × (adjacent tree p n ≡ true)
    × IsTrail tree start ((m, q) ∷ came)

module _ (tree : ℕ → List ℕ) (start : ℕ) where
  pub visited-start : (came : CameFrom) → IsTrail tree start came → visited start came ≡ true
  visited-start [] t = absurd t
  visited-start ((n, p) ∷ []) (e, f) = ground (arith, e, ==_iff n start)
  visited-start ((n, p) ∷ (m, q) ∷ came) (fresh, old, next, t) =
      ground (arith, visited-start ((m, q) ∷ came) t)

  visited-came_from :
      (x q : ℕ) (came : CameFrom)
      → IsTrail tree start came
      → came_from x came ≡ some q
      → visited q came ≡ true
  visited-came_from x q [] t e = absurd t
  visited-came_from x q ((n, p) ∷ []) (a, b) e = ground (arith, a, b, e, ==_iff n q)
  visited-came_from x q ((n, p) ∷ (m, r) ∷ came) (fresh, old, next, t) e =
      ground (arith, visited-came_from x q ((m, r) ∷ came) t, e, old)

  -- From an older pid the way back does not see the newest entry.
  walk_older :
      (fuel n p x : ℕ) (came : CameFrom) (path : List ℕ)
      → IsTrail tree start came
      → visited n came ≡ false
      → visited x came ≡ true
      → walk fuel ((n, p) ∷ came) start x path ≡ walk fuel came start x path
  unfolding walk
  walk_older zero n p x came path t fresh v = refl
  walk_older (suc fuel) n p x came path t fresh v = elim (Bool-cases (n == x)) [
    | inl e ↦ absurd (ground (arith, fresh, v, ap (λ y. visited y came) ((==_iff n x).0 e)))
    | inr e ↦ elim (Option-cases (came_from x came)) [
      | inl c ↦ ground (arith, e, c)
      | inr (q, c) ↦ ground (
        arith,
        e,
        c,
        walk_older fuel n p q came (x ∷ path) t fresh (visited-came_from x q came t c),
      )
    ]
  ]

  -- The newest pid is left for the one that it was entered from.
  walk_newest :
      (n p x : ℕ) (came : CameFrom) (path : List ℕ) (fuel : ℕ) {r : List ℕ}
      → IsTrail tree start came
      → visited n came ≡ false
      → visited p came ≡ true
      → n ≡ x
      → walk fuel came start p (x ∷ path) ≡ some r
      → walk (suc fuel) ((n, p) ∷ came) start x path ≡ some r
  unfolding walk
  walk_newest n p x came path fuel t fresh old same found = elim (Bool-cases (x == start)) [
    | inl s ↦ absurd (
        ground (
          arith,
          fresh,
          visited-start came t,
          ap (λ y. visited y came) (same ∙ (==_iff x start).0 s),
        ))
    | inr other ↦
        let e : (n == x) ≡ true = (==_iff n x).1 same in
        ground (arith, e, other, found, walk_older fuel n p p came (x ∷ path) t fresh old)
  ]

  -- From a pid that was entered the way back leads to the start, joined to what is behind it.
  pub walk_lem :
      (came : CameFrom) (x b : ℕ) (path : List ℕ) (fuel : ℕ)
      → IsTrail tree start came
      → visited x came ≡ true
      → LeadsTo (adjacent tree) x b path
      → length came ≤ fuel
      → (rest : List ℕ) × (walk fuel came start x path ≡ some (start ∷ rest))
        × LeadsTo (adjacent tree) start b rest
  unfolding walk
  walk_lem [] x b path fuel t v l h = absurd t
  walk_lem ((n, p) ∷ came) x b path zero t v l h = absurd (omega arith)
  walk_lem ((n, p) ∷ []) x b path (suc fuel) (e, f) v l h =
      let same : x ≡ start = ground (arith, e, v, ==_iff n x) in
      (
        path,
        ground (arith, same, ==_iff x start),
        subst (λ y. LeadsTo (adjacent tree) y b path) same l,
      )
  walk_lem ((n, p) ∷ (m, q) ∷ came) x b path (suc fuel) (fresh, old, next, t) v l h =
      elim (Bool-cases (n == x)) [
        | inr e ↦
            let w : visited x ((m, q) ∷ came) ≡ true = ground (arith, v, e) in
            let (rest, found, leads) =
              walk_lem ((m, q) ∷ came) x b path (suc fuel) t w l (omega arith) in
            (rest, walk_older (suc fuel) n p x ((m, q) ∷ came) path t fresh w ∙ found, leads)
        | inl e ↦
            let same : n ≡ x = (==_iff n x).0 e in
            let (rest, found, leads) =
              walk_lem ((m, q) ∷ came) p b (x ∷ path) fuel t old
                (subst (λ y. adjacent tree p y ≡ true) same next, l) (omega arith) in
            (rest, walk_newest n p x ((m, q) ∷ came) path fuel t fresh old same found, leads)
      ]
