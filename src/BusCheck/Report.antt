-- ===== src/BusCheck/Report.antt =====
-- `format_report` and `Node.describe` of software_bus/bus_check.py; `none` is a KeyError or an
-- IndexError.
pub mod Laws
use software_bus.Prelude.{
  ℕ, ◌==◌, not, Bool, true, false, if◌then◌else◌, Option, none, some, List, [], ◌∷◌, ◌++◌, map,
  length,
}
use software_bus.Text.{Text, codes}
use software_bus.Text.Decimal.{show}
use software_bus.BaseLayer.Node.{Address}
use software_bus.BusCheck.Cycles.{◌>>=◌}
use software_bus.BusCheck.Links.{Node, Nodes, Report, get_node, pids_of, sort_pids}

-- `separator.join(texts)`
abbrev pub join : Text → List Text → Text
join separator [] = []
join separator (t ∷ []) = t
join separator (t ∷ u ∷ ts) = t ++ (separator ++ join separator (u ∷ ts))

abbrev pub address_text : Address → Text
address_text (host, port) = host ++ b':' ∷ show port

abbrev pub where_text : List Address → Text
where_text [] = codes "not listening"
where_text (address ∷ addresses) = join (codes ", ") (map address_text (address ∷ addresses))

unfoldable pub describe : Node → Text
describe node =
    codes "pid "
    ++ (show node.pid
        ++ (codes " (" ++ (node.kind ++ (codes ", " ++ (where_text node.listening ++ codes ")")))))

-- `nodes[pid].describe()` of each.
unfoldable pub describe_each : Nodes → List ℕ → Option (List Text)
describe_each nodes [] = some []
describe_each nodes (pid ∷ pids) = do
  node ← get_node pid nodes
  rest ← describe_each nodes pids
  some (describe node ∷ rest)

-- A line where `count` is not 0.
abbrev pub warning : ℕ → Text → List Text
warning count text = if count == 0 then [] else (codes "warning: " ++ (show count ++ text)) ∷ []

abbrev pub unseen_warning : List ℕ → List Text
unseen_warning [] = []
unseen_warning (pid ∷ pids) =
    (codes "warning: the operating system hides the sockets of node(s) "
      ++ (join (codes ", ") (map show (pid ∷ pids))
          ++ codes
              " (e.g. run by another user); the check may be incomplete (try again as administrator/root)"))
    ∷ []

unfoldable pub cycle_line : Nodes → List ℕ → Option Text
cycle_line nodes [] = none
cycle_line nodes (pid ∷ []) = do
  first ← get_node pid nodes
  some (codes "  " ++ (describe first ++ codes " is connected to itself"))
cycle_line nodes (pid ∷ next ∷ pids) = do
  first ← get_node pid nodes
  path ← describe_each nodes (pid ∷ next ∷ pids)
  some (codes "  " ++ (join (codes " - ") path ++ (codes " - back to pid " ++ show first.pid)))

unfoldable pub cycle_lines : Nodes → List (List ℕ) → Option (List Text)
cycle_lines nodes [] = some []
cycle_lines nodes (cycle ∷ cycles) = do
  line ← cycle_line nodes cycle
  rest ← cycle_lines nodes cycles
  some (line ∷ rest)

abbrev pub cycles_part : Nodes → List (List ℕ) → Option (List Text)
cycles_part nodes [] = some (codes "No cycles found." ∷ [])
cycles_part nodes (cycle ∷ cycles) = do
  rest ← cycle_lines nodes (cycle ∷ cycles)
  some ((codes "Cycles found: " ++ show (length (cycle ∷ cycles))) ∷ rest)

unfoldable pub format_report : Report → Option Text
format_report report = do
  described ← describe_each report.nodes (sort_pids (pids_of report.nodes))
  found ← cycles_part report.nodes report.cycles
  some (
      join (codes "\n") (
        (codes "Nodes found: " ++ show (length report.nodes))
        ∷ (map (λ text. codes "  " ++ text) described
            ++ ((codes "Links between them: " ++ show (length report.links))
                ∷ (warning report.unchecked_remote (
                      codes
                        " node connection(s) go to other machines (or to processes this check can't see); those are not checked")
                    ++ (warning report.hidden (
                          codes
                            " node connection(s) go to a process the operating system hides; the check may be incomplete (try again as administrator/root)")
                        ++ (unseen_warning report.unseen ++ found)))))))
