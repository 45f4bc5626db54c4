-- ===== src/BusCheck/Links/Spec.antt =====
-- The links that `find_links` (software_bus/bus_check.py) is to report, in terms of the connections.
use software_bus.Prelude.{
  ℕ, not, ◌&&◌, ◌||◌, Bool, true, false, if◌then◌else◌, Option, none, some, List, [], ◌∷◌, any,
}
use software_bus.BaseLayer.Node.{Address}
use software_bus.BusCheck.Ends.{End, end_eq, end_lt, opposite}
use software_bus.BusCheck.Cycles.{◌>>=◌, Link}
use software_bus.BusCheck.Links.{Nodes, TcpConnection, is_node, pid_listens_on}

abbrev pub either : Option ℕ → Option ℕ → Option ℕ
either none other = other
either (some pid) other = some pid

abbrev pub is_at : End → Address → Option Address → Bool
is_at e local none = false
is_at e local (some remote) = end_eq (local, remote) e

abbrev pub if_node : Nodes → Option ℕ → Option ℕ
if_node nodes none = none
if_node nodes (some pid) = if is_node pid nodes then some pid else none

-- The node that has the end `e`, by the last connection that says so.
unfoldable pub owner : Nodes → List TcpConnection → End → Option ℕ
owner nodes [] e = none
owner nodes (c ∷ connections) e =
    either (owner nodes connections e)
      (if is_at e c.local c.remote && not c.listening then if_node nodes c.pid else none)

-- The pids at the two ends.
unfoldable pub link_of : (End → Option ℕ) → End → Option Link
link_of own e = do pid ← own e; other ← own (opposite e); some (pid, other)

-- Both ends are nodes', one of them at an address that its node listens on; `e` is the smaller end.
unfoldable pub is_link : Nodes → (End → Option ℕ) → End → Bool
is_link nodes own (a, b) = elim (link_of own (a, b)) [
  | none ↦ false
  | some (pid, other) ↦
      (pid_listens_on nodes pid a || pid_listens_on nodes other b) && end_lt (a, b) (b, a)
]

unfoldable pub different : List End → Bool
different [] = true
different (e ∷ ends) = not (any (end_eq e) ends) && different ends
