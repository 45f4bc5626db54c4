-- ===== src/BusCheck/Cycles/Tests.antt =====
-- Runs of `find_cycles` (software_bus/bus_check.py).
use software_bus.Prelude.{ℕ, ◌≡◌, refl, true, some, List, [], ◌∷◌, ◌&&◌, member, update, All}
use software_bus.BusCheck.Cycles.{
  Link, find_cycles, add_links, add_link, join_groups, add_cycle, root, tree_path, search, scan,
  walk,
}
use software_bus.BusCheck.Cycles.Spec.{Reported}
use software_bus.BusCheck.Cycles.Laws.{find_cycles-Reported}

abbrev pids : List ℕ
pids = 10 ∷ 20 ∷ 30 ∷ 40 ∷ 50 ∷ []

-- Two links between one pair, a ring of three, and a node connected to itself.
abbrev ring_links : List Link
ring_links = (10, 20) ∷ (20, 10) ∷ (20, 30) ∷ (40, 50) ∷ (10, 30) ∷ (50, 50) ∷ []

ring_run :
    find_cycles pids ring_links ≡ some ((20 ∷ 10 ∷ []) ∷ (10 ∷ 20 ∷ 30 ∷ []) ∷ (50 ∷ []) ∷ [])
unfolding find_cycles add_links add_link join_groups add_cycle root tree_path search scan walk
    member update
ring_run = refl

find_cycles-Reported_example :
    (cycles : List (List ℕ)) × (find_cycles pids ring_links ≡ some cycles)
    × Reported [] ring_links cycles
find_cycles-Reported_example = find_cycles-Reported pids ring_links known
  where
    known : All (λ l. (member l.0 pids && member l.1 pids) ≡ true) ring_links
    known = unfold member in (refl, (refl, (refl, (refl, (refl, (refl, tt))))))
