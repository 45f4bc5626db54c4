-- ===== src/BusCheck/Run/Tests.antt =====
-- Runs of bus_check (software_bus/bus_check.py) with two nodes that have two links.
use software_bus.Prelude.{refl, ◌≡◌, ◌↔◌, true, false, some, none, ℕ, List, [], ◌∷◌}
use software_bus.Text.{Text, codes}
use software_bus.BaseLayer.Node.{Address}
use software_bus.Text.Decimal.{show}
use software_bus.BusCheck.Links.{Node, Nodes, TcpConnection, get_node, sort_pids, insert_pid}
use software_bus.BusCheck.Report.{format_report, describe_each, describe, cycle_lines, cycle_line}
use software_bus.BusCheck.Run.{
  exit_status, run, exit_ok, exit_cycles, exit_error, IsForest, links_between, run_lem,
}

abbrev node : ℕ → Node
node pid = record { pid = pid; kind = codes "bl_server"; listening = []; sockets_hidden = false }

abbrev two_nodes : Nodes
two_nodes = (7, node 7) ∷ (8, node 8) ∷ []

abbrev at : ℕ → Address
at port = (codes "::1", port)

abbrev end_of : ℕ → ℕ → ℕ → TcpConnection
end_of pid from to = record {
  pid = some pid;
  local = at from;
  remote = some (at to);
  listening = false;
}

abbrev sockets : List TcpConnection
sockets =
    record { pid = some 7; local = at 9; remote = none; listening = true }
    ∷ end_of 7 9 1
    ∷ end_of 8 1 9
    ∷ end_of 7 9 2
    ∷ end_of 8 2 9
    ∷ []

run_lem_example :
    (exit_status (run none) ≡ some exit_error)
    × ((text : Text) × (status : ℕ) × (run (some (two_nodes, sockets)) ≡ some (some text, status)))
    × ((exit_status (run (some (two_nodes, sockets))) ≡ some exit_ok)
        ↔ IsForest [] (links_between two_nodes sockets))
    × ((exit_status (run (some (two_nodes, sockets))) ≡ some exit_cycles)
        ↔ (¬ IsForest [] (links_between two_nodes sockets)))
run_lem_example = run_lem two_nodes sockets

-- One node that is connected to itself.
one_node_runs :
    format_report (record {
      nodes = (7, record (node 7) { listening = at 9 ∷ [] }) ∷ [];
      links = (7, 7) ∷ [];
      cycles = (7 ∷ []) ∷ [];
      unchecked_remote = 2;
      hidden = 0;
      unseen = [];
    })
    ≡ some (
        codes
          "Nodes found: 1\n  pid 7 (bl_server, ::1:9)\nLinks between them: 1\nwarning: 2 node connection(s) go to other machines (or to processes this check can't see); those are not checked\nCycles found: 1\n  pid 7 (bl_server, ::1:9) is connected to itself")
unfolding format_report describe_each describe cycle_lines cycle_line get_node sort_pids insert_pid
    show
one_node_runs = refl
