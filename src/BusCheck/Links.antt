-- ===== src/BusCheck/Links.antt =====
-- `_listens_on`, `drop_launchers`, `find_links` and `check` of software_bus/bus_check.py. `nodes` is
-- the list of its items; a pid that is `None` is not a key of it.
pub mod Spec
pub mod Laws
pub mod Checked
pub mod Launchers
pub mod Tests
use software_bus.Prelude.{
  ℕ, ◌+◌, ◌==◌, not, ◌&&◌, ◌||◌, Bool, true, false, if◌then◌else◌, Option, none, some, List, [],
  ◌∷◌, ◌++◌, any, map, member, select, leb,
}
use software_bus.Text.{Text, text_eq, codes}
use software_bus.BaseLayer.Node.{Address, address_eq}
use software_bus.BusCheck.Ends.{End, end_eq, end_lt, opposite, end_pid, set_pid}
use software_bus.BusCheck.Cycles.{◌>>=◌, Link, find_cycles}

pub record Node : Type 0 where
  pub pid : ℕ
  pub kind : Text
  pub listening : List Address
  pub sockets_hidden : Bool

-- `remote` is `none` for a listening socket.
pub record TcpConnection : Type 0 where
  pub pid : Option ℕ
  pub local : Address
  pub remote : Option Address
  pub listening : Bool

abbrev pub Nodes : Type 0
Nodes = List (ℕ × Node)

unfoldable pub get_node : ℕ → Nodes → Option Node
get_node pid [] = none
get_node pid ((key, node) ∷ nodes) =
    let rest = get_node pid nodes in if key == pid then some node else rest

-- `nodes.get(pid)`
abbrev pub node_of : Option ℕ → Nodes → Option Node
node_of none nodes = none
node_of (some pid) nodes = get_node pid nodes

-- The pids whose child is a node of the same kind, in the order of the children.
abbrev pub same_kind : Node → Option Node → List ℕ
same_kind node none = []
same_kind node (some parent) = if text_eq parent.kind node.kind then parent.pid ∷ [] else []

unfoldable pub find_launchers : (ℕ → Option ℕ) → Nodes → Nodes → List ℕ
find_launchers parents nodes [] = []
find_launchers parents nodes ((pid, node) ∷ left) =
    same_kind node (node_of (parents pid) nodes) ++ find_launchers parents nodes left

unfoldable pub drop_launchers : (ℕ → Option ℕ) → Nodes → Nodes
drop_launchers parents nodes =
    select (λ item. not (member item.0 (find_launchers parents nodes nodes))) nodes

abbrev pub is_wildcard_host : Text → Bool
is_wildcard_host host =
    text_eq host (codes "0.0.0.0") || text_eq host (codes "::") || text_eq host []

abbrev pub listens_on : Node → Address → Bool
listens_on node (host, port) =
    any (λ address. port == address.1 && (text_eq host address.0 || is_wildcard_host address.0))
      node.listening

-- `_listens_on(nodes[pid], address)`, for a pid that is there.
abbrev pub pid_listens_on : Nodes → ℕ → Address → Bool
pid_listens_on nodes pid address = elim (get_node pid nodes) [
  | none ↦ false
  | some node ↦ listens_on node address
]

-- The ends of the connections that are not listening and have a remote address, with their pids.
abbrev pub add_end : TcpConnection → Option Address → List (End × Option ℕ) → List (End × Option ℕ)
add_end c none ends = ends
add_end c (some remote) ends = if c.listening then ends else ((c.local, remote), c.pid) ∷ ends

unfoldable pub all_ends : List TcpConnection → List (End × Option ℕ)
all_ends [] = []
all_ends (c ∷ connections) = add_end c c.remote (all_ends connections)

abbrev pub is_none : Option ℕ → Bool
is_none none = true
is_none (some pid) = false

abbrev pub hidden_ends : List (End × Option ℕ) → List (End × Option ℕ)
hidden_ends ends = select (λ item. is_none item.1) ends

abbrev pub has_end : End → List (End × Option ℕ) → Bool
has_end e ends = any (λ item. end_eq item.0 e) ends

abbrev pub is_node : ℕ → Nodes → Bool
is_node pid nodes = elim (get_node pid nodes) [ none ↦ false | some node ↦ true ]

abbrev pub add_node_end : Nodes → End → Option ℕ → List (End × ℕ) → List (End × ℕ)
add_node_end nodes e none items = items
add_node_end nodes e (some pid) items = if is_node pid nodes then set_pid e pid items else items

-- The dict `node_ends`, filled in the order of the connections.
unfoldable pub node_ends : Nodes → List (End × Option ℕ) → List (End × ℕ) → List (End × ℕ)
node_ends nodes [] items = items
node_ends nodes ((e, pid) ∷ ends) items = node_ends nodes ends (add_node_end nodes e pid items)

-- What `find_links` returns.
pub record Found : Type 0 where
  pub links : List Link
  pub unchecked_remote : ℕ
  pub hidden : ℕ

abbrev pub nothing_found : Found
nothing_found = record { links = []; unchecked_remote = 0; hidden = 0 }

-- The end of a node is paired with `other`, the pid of its opposite end if that is a node's.
abbrev pub pair_end : Nodes → List (End × Option ℕ) → End → ℕ → Option ℕ → Found → Found
pair_end nodes ends (a, b) pid (some other) found =
    if (pid_listens_on nodes pid a || pid_listens_on nodes other b) && end_lt (a, b) (b, a)
    then record found { links = found.links ++ (pid, other) ∷ [] }
    else found
pair_end nodes ends (a, b) pid none found =
    if has_end (b, a) (hidden_ends ends)
    then record found { hidden = found.hidden + 1 }
    else if has_end (b, a) ends
    then found
    else record found { unchecked_remote = found.unchecked_remote + 1 }

unfoldable pub pair_ends :
    Nodes → List (End × Option ℕ) → List (End × ℕ) → List (End × ℕ) → Found → Found
pair_ends nodes ends items [] found = found
pair_ends nodes ends items ((e, pid) ∷ left) found =
    pair_ends nodes ends items left (pair_end nodes ends e pid (end_pid (opposite e) items) found)

unfoldable pub find_links : List TcpConnection → Nodes → Found
find_links connections nodes =
    let ends = all_ends connections in
    let items = node_ends nodes ends [] in pair_ends nodes ends items items nothing_found

-- A listening socket of a node is added to its addresses, once.
abbrev pub add_address : Address → Node → Node
add_address address node =
    if any (λ known. address_eq known address) node.listening
    then node
    else record node { listening = node.listening ++ address ∷ [] }

unfoldable pub listen_at : ℕ → Address → Nodes → Nodes
listen_at pid address [] = []
listen_at pid address ((key, node) ∷ nodes) =
    let rest = listen_at pid address nodes in
    if key == pid then (key, add_address address node) ∷ nodes else (key, node) ∷ rest

abbrev pub add_listening : TcpConnection → Option ℕ → Nodes → Nodes
add_listening c none nodes = nodes
add_listening c (some pid) nodes = if c.listening then listen_at pid c.local nodes else nodes

unfoldable pub fill_listening : List TcpConnection → Nodes → Nodes
fill_listening [] nodes = nodes
fill_listening (c ∷ connections) nodes = fill_listening connections (add_listening c c.pid nodes)

-- `sorted(pids)`
unfoldable pub insert_pid : ℕ → List ℕ → List ℕ
insert_pid pid [] = pid ∷ []
insert_pid pid (x ∷ xs) =
    let rest = insert_pid pid xs in if leb pid x then pid ∷ x ∷ xs else x ∷ rest

unfoldable pub sort_pids : List ℕ → List ℕ
sort_pids [] = []
sort_pids (pid ∷ pids) = insert_pid pid (sort_pids pids)

pub record Report : Type 0 where
  pub nodes : Nodes
  pub links : List Link
  pub cycles : List (List ℕ)
  pub unchecked_remote : ℕ
  pub hidden : ℕ
  pub unseen : List ℕ

abbrev pub pids_of : Nodes → List ℕ
pids_of nodes = map (λ item. item.0) nodes

abbrev pub report_of : Nodes → Found → List (List ℕ) → Report
report_of nodes found cycles = record {
  nodes = nodes;
  links = found.links;
  cycles = cycles;
  unchecked_remote = found.unchecked_remote;
  hidden = found.hidden;
  unseen = sort_pids (pids_of (select (λ item. (item.1).sockets_hidden) nodes));
}

abbrev pub report_on : Nodes → Found → Option Report
report_on nodes found = do
  cycles ← find_cycles (pids_of nodes) found.links
  some (report_of nodes found cycles)

unfoldable pub check : Nodes → List TcpConnection → Option Report
check nodes connections =
    let filled = fill_listening connections nodes in
    report_on filled (find_links connections filled)
