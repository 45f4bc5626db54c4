-- ===== src/BusCheck/Links/Tests.antt =====
-- Runs of `check` and its parts (software_bus/bus_check.py).
use software_bus.Prelude.{
  ℕ, ◌≡◌, refl, ◌==◌, true, false, Option, some, none, List, [], ◌∷◌, any, map, member, select,
  if◌then◌else◌,
}
use software_bus.Text.{codes, text_eq}
use software_bus.BaseLayer.Node.{Address}
use software_bus.BusCheck.Ends.{End, end_eq, end_lt, end_pid, set_pid, text_lt, address_lt}
use software_bus.BusCheck.Cycles.Spec.{Reported}
use software_bus.BusCheck.Links.{
  Node, Nodes, TcpConnection, Report, get_node, find_links, drop_launchers, find_launchers, check,
  fill_listening, listen_at, all_ends, node_ends, pair_ends,
}
use software_bus.BusCheck.Links.Spec.{owner, link_of, is_link, different}
use software_bus.BusCheck.Links.Laws.{find_links_lem}
use software_bus.BusCheck.Links.Launchers.{has_child, drop_launchers_lem}
use software_bus.BusCheck.Links.Checked.{check-Reported}

abbrev node : ℕ → Node
node pid = record { pid = pid; kind = codes "ps_server"; listening = []; sockets_hidden = false }

abbrev two_nodes : Nodes
two_nodes = (7, node 7) ∷ (8, node 8) ∷ []

abbrev at : ℕ → Address
at port = (codes "127.0.0.1", port)

abbrev listen : ℕ → ℕ → TcpConnection
listen pid port = record { pid = some pid; local = at port; remote = none; listening = true }

abbrev end_of : Option ℕ → ℕ → ℕ → TcpConnection
end_of pid from to = record { pid = pid; local = at from; remote = some (at to); listening = false }

-- Two links between the nodes, one node's link to a hidden process, and one to another machine.
abbrev sockets : List TcpConnection
sockets =
    listen 7 9000
    ∷ end_of (some 7) 9000 4001
    ∷ end_of (some 8) 4001 9000
    ∷ end_of (some 8) 4002 9000
    ∷ end_of (some 7) 9000 4002
    ∷ end_of (some 7) 9000 4003
    ∷ end_of none 4003 9000
    ∷ end_of (some 8) 4004 9500
    ∷ []

abbrev heard : Nodes
heard = fill_listening sockets two_nodes

links_run :
    find_links sockets heard
    ≡ record { links = (8, 7) ∷ (8, 7) ∷ []; unchecked_remote = 1; hidden = 1 }
unfolding find_links all_ends node_ends pair_ends fill_listening listen_at get_node text_eq text_lt
    address_lt end_eq end_lt end_pid set_pid select
links_run = refl

find_links_lem_example :
    (ends : List End) × (different ends ≡ true)
    × (map some (find_links sockets heard).links ≡ map (link_of (owner heard sockets)) ends)
    × ((e : End) → any (end_eq e) ends ≡ is_link heard (owner heard sockets) e)
find_links_lem_example = find_links_lem sockets heard

check-Reported_example :
    (report : Report) × (check two_nodes sockets ≡ some report)
    × (report.nodes ≡ fill_listening sockets two_nodes)
    × (report.links ≡ (find_links sockets (fill_listening sockets two_nodes)).links)
    × Reported [] report.links report.cycles
check-Reported_example = check-Reported two_nodes sockets

-- 8 is the child of 7.
abbrev parents : ℕ → Option ℕ
parents pid = if pid == 8 then some 7 else some 1

launchers_run : drop_launchers parents two_nodes ≡ (8, node 8) ∷ []
unfolding drop_launchers find_launchers get_node select member text_eq
launchers_run = refl

drop_launchers_lem_example :
    get_node 7 (drop_launchers parents two_nodes)
    ≡ (if has_child parents two_nodes 7 then none else get_node 7 two_nodes)
drop_launchers_lem_example = drop_launchers_lem parents two_nodes 7 (refl, (refl, tt))
