-- ===== src/BusCheck/Cycles.antt =====
-- `find_cycles` and `_tree_path` of software_bus/bus_check.py. The dicts `parent` and `tree` are
-- functions, and `came_from` is the list of its items, newest first. Loops take fuel; `none` stands
-- for a key that is not there, and for fuel that has run out.
pub mod Spec
mod Root
mod Walk
mod Search
mod Together
pub mod Laws
mod Tests
use software_bus.Prelude.{
  ℕ, zero, suc, ◌+◌, ◌==◌, ◌&&◌, ◌||◌, Bool, true, false, if◌then◌else◌, Option, none, some, List,
  [], ◌∷◌, ◌++◌, length, member, update,
}

infixl 8 ◌>>=◌
abbrev pub ◌>>=◌ : {A B : Type 0} → Option A → (A → Option B) → Option B
none >>= rest = none
some value >>= rest = rest value

abbrev pub Link : Type 0
Link = ℕ × ℕ

-- The inner function `root`: the root of `pid`, and the parents with the path to it halved.
unfoldable pub root : ℕ → ℕ → (ℕ → ℕ) → Option (ℕ × (ℕ → ℕ))
root zero pid parent = none
root (suc fuel) pid parent =
    let halved = update parent pid (parent (parent pid)) in
    let rest = root fuel (halved pid) halved in
    if parent pid == pid then some (pid, parent) else rest

abbrev pub CameFrom : Type 0
CameFrom = List (ℕ × ℕ)

abbrev pub came_from : ℕ → CameFrom → Option ℕ
came_from pid [] = none
came_from pid ((n, p) ∷ came) = if n == pid then some p else came_from pid came

abbrev pub visited : ℕ → CameFrom → Bool
visited pid [] = false
visited pid ((n, p) ∷ came) = n == pid || visited pid came

-- The loop over the neighbours of `pid`, on `came_from` and the queue.
unfoldable pub scan : ℕ → List ℕ → CameFrom × List ℕ → CameFrom × List ℕ
scan pid [] s = s
scan pid (neighbour ∷ rest) (came, queue) = scan pid rest (
    if visited neighbour came
    then (came, queue)
    else ((neighbour, pid) ∷ came, queue ++ neighbour ∷ []))

-- The loop over the queue; the result is `came_from`.
unfoldable pub search : ℕ → (ℕ → List ℕ) → ℕ → CameFrom × List ℕ → Option CameFrom
search zero tree end s = none
search (suc fuel) tree end (came, []) = some came
search (suc fuel) tree end (came, pid ∷ queue) =
    let rest = search fuel tree end (scan pid (tree pid) (came, queue)) in
    if pid == end then some came else rest

-- The loop that follows `came_from` back to the start; `path` is kept reversed, as it is returned.
unfoldable pub walk : ℕ → CameFrom → ℕ → ℕ → List ℕ → Option (List ℕ)
walk zero came start pid path = none
walk (suc fuel) came start pid path =
    let rest : Option (List ℕ) = elim (came_from pid came) [
      | none ↦ none
      | some p ↦ walk fuel came start p (pid ∷ path)
    ] in
    if pid == start then some (pid ∷ path) else rest

unfoldable pub tree_path : ℕ → (ℕ → List ℕ) → ℕ → ℕ → Option (List ℕ)
tree_path fuel tree start end = do
  came ← search fuel tree end ((start, start) ∷ [], start ∷ [])
  walk (length came) came start end []

-- What the loop of `find_cycles` keeps.
pub record Groups : Type 0 where
  pub parent : ℕ → ℕ
  pub tree : ℕ → List ℕ
  pub cycles : List (List ℕ)

-- `tree[a].append(b)`
abbrev pub add_neighbour : ℕ → ℕ → (ℕ → List ℕ) → ℕ → List ℕ
add_neighbour a b tree = update tree a (tree a ++ b ∷ [])

-- The link joins two groups.
unfoldable pub join_groups : ℕ → ℕ → ℕ → Groups → Option Groups
join_groups fuel a b g = do
  (root_b, parent) ← root fuel b g.parent
  (root_a, parent') ← root fuel a parent
  some (record g {
    parent = update parent' root_a root_b;
    tree = add_neighbour b a (add_neighbour a b g.tree);
  })

unfoldable pub add_cycle : Option (List ℕ) → Groups → Option Groups
add_cycle none g = none
add_cycle (some path) g = some (record g { cycles = g.cycles ++ path ∷ [] })

-- The body of the loop, for a link whose ends are keys of `parent`.
unfoldable pub add_link : ℕ → ℕ → ℕ → Groups → Option Groups
add_link fuel a b g = do
  (root_a, parent) ← root fuel a g.parent
  (root_b, parent') ← root fuel b parent
  let g' = record g { parent = parent' }
  if root_a == root_b then add_cycle (tree_path fuel g.tree a b) g' else join_groups fuel a b g'

unfoldable pub add_links : List ℕ → ℕ → List Link → Groups → Option Groups
add_links pids fuel [] g = some g
add_links pids fuel ((a, b) ∷ links) g = do
  g' ←
      if a == b
      then add_cycle (some (a ∷ [])) g
      else if member a pids && member b pids
      then add_link fuel a b g
      else none
  add_links pids fuel links g'

abbrev pub no_links : Groups
no_links = record { parent = λ pid. pid; tree = λ pid. []; cycles = [] }

-- A path to a root is no longer than the links that were joined, and a search enters each pid once.
unfoldable pub find_cycles : List ℕ → List Link → Option (List (List ℕ))
find_cycles pids links = do
  g ← add_links pids (2 + (length pids + length links)) links no_links
  some g.cycles
