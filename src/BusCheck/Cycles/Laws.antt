-- ===== src/BusCheck/Cycles/Laws.antt =====
-- What `find_cycles` (software_bus/bus_check.py) reports.
use software_bus.Prelude.{
  ℕ, suc, ◌+◌, ◌≤◌, ◌<◌, ◌≡◌, refl, sym, ap, subst, ◌∙◌, arith, ◌==◌, ==_iff, ◌&&◌, true, false,
  if◌then◌else◌, none, some, List, [], ◌∷◌, ◌++◌, append_assoc, append-nil, length, member, All,
  update, Bool-cases, inl, inr,
}
use software_bus.BusCheck.Cycles.{
  Link, Groups, add_neighbour, join_groups, add_cycle, add_link, add_links, no_links, find_cycles,
  ◌>>=◌,
}
use software_bus.BusCheck.Cycles.Spec.{
  adjacent, joined, Connected, here, IsCycle, Reported, no_more, closing, joining,
}
use software_bus.BusCheck.Cycles.Root.{root_lem}
use software_bus.BusCheck.Cycles.Search.{tree_path_lem}
use software_bus.BusCheck.Cycles.Together.{
  Connected-mono, LeadsTo-mono, Connected-rep, IsGrouped, grown, united,
}

-- What a link makes of the groups: a cycle more, or one group of two.
data Follows (pids : List ℕ) (n : ℕ) (seen : List Link) (a b : ℕ) (g g' : Groups) : Type 0 where
  closes :
      (cycle : List ℕ)
      → Connected (joined seen) a b
      → IsCycle seen a b cycle
      → g'.cycles ≡ g.cycles ++ cycle ∷ []
      → IsGrouped pids n ((a, b) ∷ seen) g'.parent g'.tree
      → Follows pids n seen a b g g'
  unites :
      ¬ Connected (joined seen) a b
      → g'.cycles ≡ g.cycles
      → IsGrouped pids (suc n) ((a, b) ∷ seen) g'.parent g'.tree
      → Follows pids n seen a b g g'

contradicts : (x y : ℕ) → x ≡ y → (x == y) ≡ false → ⊥
contradicts x y e n = ground (arith, e, n, ==_iff x y)

-- What the loop has after a link: the groups, and the cycle if it closes one.
add_link_lem :
    {pids : List ℕ} {n fuel : ℕ} {seen : List Link} (a b : ℕ) (g : Groups)
    (k : IsGrouped pids n seen g.parent g.tree)
    → (a == b) ≡ false
    → member a pids ≡ true
    → member b pids ≡ true
    → n < fuel
    → 2 + length pids ≤ fuel
    → (g' : Groups) × (add_link fuel a b g ≡ some g') × Follows pids n seen a b g g'
unfolding add_link join_groups add_cycle
add_link_lem {pids} {n} {fuel} {seen} a b g k apart ma mb hn hp =
    let (p1, found_a, f1) = root_lem fuel a g.parent k.forest (omega (arith, k.forest.low a)) in
    let (p2, found_b, f2) = root_lem fuel b p1 f1 (omega (arith, f1.low b)) in
    elim (Bool-cases (k.rep a == k.rep b)) [
      | inl e ↦
          let same = (==_iff (k.rep a) (k.rep b)).0 e in
          let (rest, path, leads) =
            tree_path_lem g.tree pids a b fuel k.inside (k.spans a b same) hp in
          let g' : Groups = record g { parent = p2; cycles = g.cycles ++ (a ∷ rest) ∷ [] } in
          (
            g',
            simp (found_a, found_b, e, path) refl,
            closes (a ∷ rest) (Connected-mono k.known (k.spans a b same))
                (refl, LeadsTo-mono (adjacent g.tree) (joined seen) a b rest k.known leads) refl
                (grown a b k f2 same),
          )
      | inr e ↦
          let (p3, found_b', f3) = root_lem fuel b p2 f2 (omega (arith, f2.low b)) in
          let (p4, found_a', f4) = root_lem fuel a p3 f3 (omega (arith, f3.low a)) in
          let g' : Groups = record g {
            parent = update p4 (k.rep a) (k.rep b);
            tree = add_neighbour b a (add_neighbour a b g.tree);
          } in
          (
            g',
            simp (found_a, found_b, e, found_b', found_a') refl,
            unites (λ c. contradicts (k.rep a) (k.rep b) (Connected-rep seen k.rep k.linked c) e)
                refl (united a b k f4 e ma mb),
          )
    ]

-- What the loop makes of a link, between two nodes or from one to itself.
step_lem :
    {pids : List ℕ} {n fuel : ℕ} {seen : List Link} (a b : ℕ) (g : Groups)
    → IsGrouped pids n seen g.parent g.tree
    → (member a pids && member b pids) ≡ true
    → n < fuel
    → 2 + length pids ≤ fuel
    → (g' : Groups) × ((if a == b
          then add_cycle (some (a ∷ [])) g
          else if member a pids && member b pids
          then add_link fuel a b g
          else none)
        ≡ some g')
      × Follows pids n seen a b g g'
unfolding add_cycle
step_lem {pids} {n} {fuel} {seen} a b g k ends hn hp = elim (Bool-cases (a == b)) [
  | inl e ↦
      let same = (==_iff a b).0 e in
      let alone = subst (Connected (joined seen) a) same here in
      (
        record g { cycles = g.cycles ++ (a ∷ []) ∷ [] },
        simp e refl,
        closes (a ∷ []) alone (refl, same) refl (grown a b k k.forest (ap k.rep same)),
      )
  | inr e ↦
      let (g', done, follows) =
        add_link_lem a b g k e (ground (arith, ends)) (ground (arith, ends)) hn hp in
      (g', simp (e, ends) done, follows)
]

-- What the loop has after the links.
add_links_lem :
    {pids : List ℕ} {fuel : ℕ} (n : ℕ) (seen links : List Link) (g : Groups)
    → IsGrouped pids n seen g.parent g.tree
    → All (λ l. (member l.0 pids && member l.1 pids) ≡ true) links
    → n + length links < fuel
    → 2 + length pids ≤ fuel
    → (g' : Groups) × (cs : List (List ℕ)) × (add_links pids fuel links g ≡ some g')
      × (g'.cycles ≡ g.cycles ++ cs)
      × Reported seen links cs
unfolding add_links
add_links_lem n seen [] g k ends hn hp = (g, [], refl, sym (append-nil g.cycles), no_more)
add_links_lem {pids} {fuel} n seen ((a, b) ∷ links) g k (known, ends) hn hp =
    let (g1, done, follows) = step_lem a b g k known (omega (arith, hn)) hp in
    elim follows [
      | closes cycle c path grew k' ↦
          let (g', cs, rest, more, reported) =
            add_links_lem n ((a, b) ∷ seen) links g1 k' ends (omega (arith, hn)) hp in
          (
            g',
            cycle ∷ cs,
            ap (λ r. r >>= λ (s : Groups). add_links pids fuel links s) done ∙ rest,
            more ∙ ap (λ l. l ++ cs) grew ∙ append_assoc g.cycles (cycle ∷ []) cs,
            closing c path reported,
          )
      | unites apart kept k' ↦
          let (g', cs, rest, more, reported) =
            add_links_lem (suc n) ((a, b) ∷ seen) links g1 k' ends (omega (arith, hn)) hp in
          (
            g',
            cs,
            ap (λ r. r >>= λ (s : Groups). add_links pids fuel links s) done ∙ rest,
            more ∙ ap (λ l. l ++ cs) kept,
            joining apart reported,
          )
    ]

started : (pids : List ℕ) → IsGrouped pids 0 [] no_links.parent no_links.tree
unfolding member
started pids = record {
  rep = λ pid. pid;
  depth = λ pid. 0;
  forest = record {
    same = λ x. refl;
    top = λ x. refl;
    own = λ x e. refl;
    ground_level = λ x. refl;
    falls = λ x e. absurd (contradicts x x refl e);
    low = λ x. omega arith;
  };
  linked = λ x y j. ground (arith, j);
  known = λ x y e. ground (arith, e);
  inside = λ x y e. ground (arith, e);
  spans = λ x y e. subst (Connected (adjacent no_links.tree) x) e here;
}

-- For links between the given pids, `find_cycles` always returns: it reports one cycle, in the order
-- of the links, for each link whose ends the links before it connect, and none for the other links.
-- Each cycle starts at the one end of its link and leads, along links before it, to the other end.
pub find_cycles-Reported :
    (pids : List ℕ) (links : List Link)
    → All (λ l. (member l.0 pids && member l.1 pids) ≡ true) links
    → (cycles : List (List ℕ)) × (find_cycles pids links ≡ some cycles) × Reported [] links cycles
unfolding find_cycles
find_cycles-Reported pids links ends =
    let (g, cycles, done, all, reported) =
      add_links_lem 0 [] links no_links (started pids) ends (omega arith) (omega arith) in
    (cycles, ap (λ r. r >>= λ (s : Groups). some s.cycles) done ∙ ap some all, reported)
