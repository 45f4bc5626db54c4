-- ===== src/BusCheck/Links/Launchers.antt =====
-- Which nodes `drop_launchers` (software_bus/bus_check.py) leaves out.
use software_bus.Prelude.{
  ℕ, ◌≡◌, refl, ap, arith, ◌==◌, ==_iff, not, ◌&&◌, Bool, false, if◌then◌else◌, Option, none, some,
  [], ◌∷◌, any, member, member-append, select, All, Option-cases, inl, inr,
}
use software_bus.Text.{text_eq}
use software_bus.BusCheck.Links.{
  Node, Nodes, get_node, node_of, same_kind, find_launchers, drop_launchers,
}

-- `node` runs in a child of the node `pid`, which is of the same kind.
abbrev pub is_child_of : ℕ → Node → Option ℕ → Option Node → Bool
is_child_of pid node none parent = false
is_child_of pid node (some p) none = false
is_child_of pid node (some p) (some parent) = p == pid && text_eq parent.kind node.kind

abbrev pub has_child : (ℕ → Option ℕ) → Nodes → ℕ → Bool
has_child parents nodes pid =
    any (λ item. is_child_of pid item.1 (parents item.0) (node_of (parents item.0) nodes)) nodes

get_node-pid :
    (nodes : Nodes) (pid : ℕ) (node : Node)
    → All (λ item. (item.1).pid ≡ item.0) nodes
    → get_node pid nodes ≡ some node
    → node.pid ≡ pid
unfolding get_node
get_node-pid [] pid node own h = absurd (ground (arith, h))
get_node-pid ((key, first) ∷ nodes) pid node (same, own) h =
    ground
      (arith, h, same, get_node-pid nodes pid node own, ==_iff key pid, ap (λ (n : Node). n.pid))

member-same_kind :
    (nodes : Nodes) (pid : ℕ) (node : Node) (parent : Option ℕ)
    → All (λ item. (item.1).pid ≡ item.0) nodes
    → member pid (same_kind node (node_of parent nodes))
      ≡ is_child_of pid node parent (node_of parent nodes)
unfolding member
member-same_kind nodes pid node none own = refl
member-same_kind nodes pid node (some p) own = elim (Option-cases (get_node p nodes)) [
  | inl h ↦ ground (arith, h)
  | inr (parent, h) ↦ ground (arith, h, get_node-pid nodes p parent own h)
]

member-find_launchers :
    (parents : ℕ → Option ℕ) (nodes left : Nodes) (pid : ℕ)
    → All (λ item. (item.1).pid ≡ item.0) nodes
    → member pid (find_launchers parents nodes left)
      ≡ any (λ item. is_child_of pid item.1 (parents item.0) (node_of (parents item.0) nodes)) left
unfolding find_launchers member
member-find_launchers parents nodes [] pid own = refl
member-find_launchers parents nodes ((key, node) ∷ left) pid own = ground (
  arith,
  member-find_launchers parents nodes left pid own,
  member-same_kind nodes pid node (parents key) own,
  member-append pid (same_kind node (node_of (parents key) nodes))
      (find_launchers parents nodes left),
)

get_node-select :
    (keep : ℕ → Bool) (nodes : Nodes) (pid : ℕ)
    → get_node pid (select (λ item. keep item.0) nodes)
      ≡ (if keep pid then get_node pid nodes else none)
unfolding get_node select
get_node-select keep [] pid = ground arith
get_node-select keep ((key, node) ∷ nodes) pid =
    ground (arith, get_node-select keep nodes pid, ==_iff key pid, ap keep)

-- For nodes that carry the pids they are filed under, `drop_launchers` leaves out exactly the nodes
-- that have a child process which is a node of the same kind, and keeps the others as they are.
pub drop_launchers_lem :
    (parents : ℕ → Option ℕ) (nodes : Nodes) (pid : ℕ)
    → All (λ item. (item.1).pid ≡ item.0) nodes
    → get_node pid (drop_launchers parents nodes)
      ≡ (if has_child parents nodes pid then none else get_node pid nodes)
unfolding drop_launchers
drop_launchers_lem parents nodes pid own = ground (
  arith,
  get_node-select (λ p. not (member p (find_launchers parents nodes nodes))) nodes pid,
  member-find_launchers parents nodes nodes pid own,
)
