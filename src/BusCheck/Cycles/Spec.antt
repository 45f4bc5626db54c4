-- ===== src/BusCheck/Cycles/Spec.antt =====
-- What `find_cycles` (software_bus/bus_check.py) is to report, in terms of the links alone.
use software_bus.Prelude.{ℕ, ◌≡◌, ◌==◌, ◌&&◌, ◌||◌, Bool, true, List, [], ◌∷◌, any, member}
use software_bus.BusCheck.Cycles.{Link}

-- `rest` leads on from `a` to `b`, each pid joined to the next.
abbrev pub LeadsTo : (ℕ → ℕ → Bool) → ℕ → ℕ → List ℕ → Type 0
LeadsTo joined a b [] = a ≡ b
LeadsTo joined a b (x ∷ rest) = (joined a x ≡ true) × LeadsTo joined x b rest

abbrev pub adjacent : (ℕ → List ℕ) → ℕ → ℕ → Bool
adjacent tree a b = member b (tree a)

-- A link joins its two ends, in both directions.
abbrev pub joins : ℕ → ℕ → Link → Bool
joins a b (c, d) = (c == a && d == b) || (c == b && d == a)

abbrev pub joined : List Link → ℕ → ℕ → Bool
joined links a b = any (joins a b) links

pub data Connected (joined : ℕ → ℕ → Bool) (a : ℕ) : ℕ → Type 0 where
  here : Connected joined a a
  onward : {b c : ℕ} → Connected joined a b → joined b c ≡ true → Connected joined a c

-- The pids along a cycle that a link from `a` to `b` closes: they lead from `a` to `b`.
abbrev pub IsCycle : List Link → ℕ → ℕ → List ℕ → Type 0
IsCycle links a b [] = ⊥
IsCycle links a b (x ∷ rest) = (x ≡ a) × LeadsTo (joined links) a b rest

-- One cycle for each link whose ends were connected by the links before it, in their order.
pub data Reported : List Link → List Link → List (List ℕ) → Type 0 where
  no_more : {seen : List Link} → Reported seen [] []
  closing :
      {seen : List Link} {a b : ℕ} {links : List Link} {cycle : List ℕ} {cycles : List (List ℕ)}
      → Connected (joined seen) a b
      → IsCycle seen a b cycle
      → Reported ((a, b) ∷ seen) links cycles
      → Reported seen ((a, b) ∷ links) (cycle ∷ cycles)
  joining :
      {seen : List Link} {a b : ℕ} {links : List Link} {cycles : List (List ℕ)}
      → ¬ Connected (joined seen) a b
      → Reported ((a, b) ∷ seen) links cycles
      → Reported seen ((a, b) ∷ links) cycles
