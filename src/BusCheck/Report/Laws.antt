-- ===== src/BusCheck/Report/Laws.antt =====
-- `format_report` (software_bus/bus_check.py) finds every node that it describes.
use software_bus.Prelude.{
  ℕ, ◌≡◌, refl, sym, ap, arith, ==_iff, ◌&&◌, Bool, true, false, Option, none, some, List, [], ◌∷◌,
  all, member, All, Option-cases, inl, inr, ◌∙◌,
}
use software_bus.Text.{Text}
use software_bus.BusCheck.Cycles.{Link}
use software_bus.BusCheck.Cycles.Spec.{
  LeadsTo, joined, IsCycle, Reported, no_more, closing, joining,
}
use software_bus.BusCheck.Links.{Nodes, Report, get_node, is_node, pids_of, insert_pid, sort_pids}
use software_bus.BusCheck.Links.Checked.{member-is_node}
use software_bus.BusCheck.Report.{
  describe, describe_each, cycle_line, cycle_lines, cycles_part, format_report,
}

abbrev pub is_some {ℓ} : {A : Type ℓ} → Option A → Bool
is_some none = false
is_some (some a) = true

pub some_of {ℓ} : {A : Type ℓ} (o : Option A) → is_some o ≡ true → (a : A) × (o ≡ some a)
some_of none h = absurd (ground (arith, h))
some_of (some a) h = (a, refl)

module _ (nodes : Nodes) where
  abbrev known : ℕ → Bool
  known pid = is_node pid nodes

  abbrev KnownEnds : List Link → Type 0
  KnownEnds = All (λ l. (known l.0 && known l.1) ≡ true)

  joined-known :
      (links : List Link) (a b : ℕ) → KnownEnds links → joined links a b ≡ true → known b ≡ true
  joined-known [] a b h e = absurd (ground (arith, e))
  joined-known ((c, d) ∷ links) a b (h, rest) e = ground (
    arith,
    h,
    e,
    ==_iff c a,
    ==_iff d b,
    ==_iff c b,
    ==_iff d a,
    joined-known links a b rest,
    ap known,
  )

  LeadsTo-known :
      (links : List Link) (a b : ℕ) (pids : List ℕ)
      → KnownEnds links
      → LeadsTo (joined links) a b pids
      → all known pids ≡ true
  LeadsTo-known links a b [] h e = refl
  LeadsTo-known links a b (x ∷ pids) h (e, rest) =
      ground (arith, joined-known links a x h e, LeadsTo-known links x b pids h rest)

  -- A cycle of nodes.
  abbrev pub is_known_cycle : List ℕ → Bool
  is_known_cycle [] = false
  is_known_cycle (pid ∷ pids) = known pid && all known pids

  IsCycle-known :
      (links : List Link) (a b : ℕ) (cycle : List ℕ)
      → KnownEnds links
      → known a ≡ true
      → IsCycle links a b cycle
      → is_known_cycle cycle ≡ true
  IsCycle-known links a b [] h e i = absurd i
  IsCycle-known links a b (x ∷ pids) h e (f, i) =
      ground (arith, e, ap known f, LeadsTo-known links a b pids h i)

  Reported-known :
      {seen links : List Link} {cycles : List (List ℕ)}
      → Reported seen links cycles
      → KnownEnds seen
      → KnownEnds links
      → all is_known_cycle cycles ≡ true
  Reported-known no_more h g = refl
  Reported-known {seen = seen} (closing {a = a} {b = b} {cycle = cycle} c i r) h (e, g) =
      ground
        (arith, IsCycle-known seen a b cycle h (ground (arith, e)) i, Reported-known r (e, h) g)
  Reported-known (joining n r) h (e, g) = Reported-known r (e, h) g

  describe_each_known :
      (pids : List ℕ)
      → all known pids ≡ true
      → (texts : List Text) × (describe_each nodes pids ≡ some texts)
  unfolding describe_each
  describe_each_known [] h = ([], refl)
  describe_each_known (pid ∷ pids) h = elim (Option-cases (get_node pid nodes)) [
    | inl e ↦ absurd (ground (arith, e, h))
    | inr (node, e) ↦
        let (texts, f) = describe_each_known pids (ground (arith, h)) in
        (describe node ∷ texts, rw e (rw f refl))
  ]

  cycle_line_known :
      (cycle : List ℕ) → is_known_cycle cycle ≡ true → is_some (cycle_line nodes cycle) ≡ true
  unfolding cycle_line
  cycle_line_known [] h = absurd (ground (arith, h))
  cycle_line_known (pid ∷ []) h = elim (Option-cases (get_node pid nodes)) [
    | inl e ↦ absurd (ground (arith, e, h))
    | inr (node, e) ↦ rw e refl
  ]
  cycle_line_known (pid ∷ next ∷ pids) h = elim (Option-cases (get_node pid nodes)) [
    | inl e ↦ absurd (ground (arith, e, h))
    | inr (node, e) ↦ let (texts, f) = describe_each_known (pid ∷ next ∷ pids) h in rw e (rw f refl)
  ]

  cycle_lines_known :
      (cycles : List (List ℕ))
      → all is_known_cycle cycles ≡ true
      → (texts : List Text) × (cycle_lines nodes cycles ≡ some texts)
  unfolding cycle_lines
  cycle_lines_known [] h = ([], refl)
  cycle_lines_known (cycle ∷ cycles) h =
      let (line, e) =
        some_of (cycle_line nodes cycle) (cycle_line_known cycle (ground (arith, h))) in
      let (rest, f) = cycle_lines_known cycles (ground (arith, h)) in
      (line ∷ rest, rw e (rw f refl))

  cycles_part_known :
      (cycles : List (List ℕ))
      → all is_known_cycle cycles ≡ true
      → is_some (cycles_part nodes cycles) ≡ true
  cycles_part_known [] h = refl
  cycles_part_known (cycle ∷ cycles) h =
      let (rest, f) = cycle_lines_known (cycle ∷ cycles) h in rw f refl

all-insert_pid :
    (p : ℕ → Bool) (pid : ℕ) (pids : List ℕ) → all p (insert_pid pid pids) ≡ (p pid && all p pids)
unfolding insert_pid
all-insert_pid p pid [] = refl
all-insert_pid p pid (x ∷ pids) = ground (arith, all-insert_pid p pid pids)

all-sort_pids : (p : ℕ → Bool) (pids : List ℕ) → all p (sort_pids pids) ≡ all p pids
unfolding sort_pids
all-sort_pids p [] = refl
all-sort_pids p (pid ∷ pids) =
    all-insert_pid p pid (sort_pids pids) ∙ ap (λ b. p pid && b) (all-sort_pids p pids)

all-member :
    (p : ℕ → Bool) (pids : List ℕ)
    → ((pid : ℕ) → member pid pids ≡ true → p pid ≡ true)
    → all p pids ≡ true
unfolding member
all-member p [] h = refl
all-member p (pid ∷ pids) h = ground (
  arith,
  h pid (ground (arith, ==_iff pid pid)),
  all-member p pids (λ other e. h other (ground (arith, e))),
)

All-known :
    (nodes : Nodes) (links : List Link)
    → All (λ l. (member l.0 (pids_of nodes) && member l.1 (pids_of nodes)) ≡ true) links
    → KnownEnds nodes links
All-known nodes [] h = tt
All-known nodes (l ∷ links) (e, h) =
    (ground (arith, e, member-is_node l.0 nodes, member-is_node l.1 nodes), All-known nodes links h)

-- A report whose cycles are `Reported` for links between its nodes can be printed.
pub format_report_known :
    (report : Report)
    → All
        (λ l. (member l.0 (pids_of report.nodes) && member l.1 (pids_of report.nodes)) ≡ true)
        report.links
    → Reported [] report.links report.cycles
    → is_some (format_report report) ≡ true
unfolding format_report
format_report_known report ends reported =
    let nodes = report.nodes in
    let listed : all (known nodes) (sort_pids (pids_of nodes)) ≡ true =
      all-sort_pids (known nodes) (pids_of nodes)
      ∙ all-member (known nodes) (pids_of nodes) (λ pid e. sym (member-is_node pid nodes) ∙ e) in
    let (described, e) = describe_each_known nodes (sort_pids (pids_of nodes)) listed in
    let (found, f) = some_of (cycles_part nodes report.cycles) (
      cycles_part_known nodes report.cycles
        (Reported-known nodes reported tt (All-known nodes report.links ends))) in
    rw e (rw f refl)
