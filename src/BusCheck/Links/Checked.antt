-- ===== src/BusCheck/Links/Checked.antt =====
-- The report of `check` (software_bus/bus_check.py).
use software_bus.Prelude.{
  ℕ, ◌≡◌, refl, ap, arith, ◌&&◌, true, Option, none, some, List, [], ◌∷◌, map, member, All,
}
use software_bus.BusCheck.Ends.{End, opposite}
use software_bus.BusCheck.Cycles.{Link, ◌>>=◌}
use software_bus.BusCheck.Cycles.Spec.{Reported}
use software_bus.BusCheck.Cycles.Laws.{find_cycles-Reported}
use software_bus.BusCheck.Links.{
  Nodes, TcpConnection, Report, get_node, is_node, pids_of, fill_listening, find_links, report_of,
  check,
}
use software_bus.BusCheck.Links.Spec.{if_node, owner, link_of}
use software_bus.BusCheck.Links.Laws.{find_links_lem}

pub member-is_node : (pid : ℕ) (nodes : Nodes) → member pid (pids_of nodes) ≡ is_node pid nodes
unfolding member get_node
member-is_node pid [] = refl
member-is_node pid ((key, node) ∷ nodes) = ground (arith, member-is_node pid nodes)

if_node-is_node :
    (nodes : Nodes) (given : Option ℕ) (pid : ℕ)
    → if_node nodes given ≡ some pid
    → is_node pid nodes ≡ true
if_node-is_node nodes none pid h = absurd (ground (arith, h))
if_node-is_node nodes (some other) pid h = ground (arith, h, ap (λ p. is_node p nodes))

owner-is_node :
    (nodes : Nodes) (connections : List TcpConnection) (e : End) (pid : ℕ)
    → owner nodes connections e ≡ some pid
    → is_node pid nodes ≡ true
unfolding owner
owner-is_node nodes [] e pid h = absurd (ground (arith, h))
owner-is_node nodes (c ∷ connections) e pid h =
    ground (arith, h, owner-is_node nodes connections e pid, if_node-is_node nodes c.pid pid)

link_of-ends :
    (own : End → Option ℕ) (e : End) (pid other : ℕ)
    → some (pid, other) ≡ link_of own e
    → (own e ≡ some pid) × (own (opposite e) ≡ some other)
unfolding link_of
link_of-ends own e pid other h = (ground (arith, h), ground (arith, h))

-- The links that `find_links` reports are between nodes.
known :
    (nodes : Nodes) (connections : List TcpConnection) (ends : List End) (links : List Link)
    → map some links ≡ map (link_of (owner nodes connections)) ends
    → All (λ l. (member l.0 (pids_of nodes) && member l.1 (pids_of nodes)) ≡ true) links
known nodes connections ends [] h = tt
known nodes connections [] (link ∷ links) h = absurd (ground (arith, h))
known nodes connections (e ∷ ends) ((pid, other) ∷ links) h =
    let (own, across) = link_of-ends (owner nodes connections) e pid other (ground (arith, h)) in
    (
      ground (
        arith,
        member-is_node pid nodes,
        member-is_node other nodes,
        owner-is_node nodes connections e pid own,
        owner-is_node nodes connections (opposite e) other across,
      ),
      known nodes connections ends links (ground (arith, h)),
    )

-- The ends of the links are nodes.
pub find_links-ends :
    (nodes : Nodes) (connections : List TcpConnection)
    → All
        (λ l. (member l.0 (pids_of nodes) && member l.1 (pids_of nodes)) ≡ true)
        (find_links connections nodes).links
find_links-ends nodes connections =
    let (ends, once, made, listed) = find_links_lem connections nodes in
    known nodes connections ends (find_links connections nodes).links made

-- For any nodes and connections `check` returns a report: its nodes are those given, with their
-- listening addresses, its links are those that `find_links` finds between these, and its cycles are
-- one for each link whose ends the links before it connect, in their order, each leading from one end
-- of its link to the other along links before it.
pub check-Reported :
    (nodes : Nodes) (connections : List TcpConnection)
    → (report : Report) × (check nodes connections ≡ some report)
      × (report.nodes ≡ fill_listening connections nodes)
      × (report.links ≡ (find_links connections (fill_listening connections nodes)).links)
      × Reported [] report.links report.cycles
unfolding check
check-Reported nodes connections =
    let filled = fill_listening connections nodes in
    let found = find_links connections filled in
    let (cycles, done, reported) =
      find_cycles-Reported (pids_of filled) found.links (find_links-ends filled connections) in
    (
      report_of filled found cycles,
      ap (λ r. r >>= λ (c : List (List ℕ)). some (report_of filled found c)) done,
      refl,
      refl,
      reported,
    )
