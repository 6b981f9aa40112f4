-- ===== src/Runtime/Dag/Tests.antt =====
-- The theorems on dag.rs at the diamond of its unit test, and the cycle of another.
use flume_rs.Base.{ℕ, ◌≡◌, refl, List, [], ◌∷◌, Option, none, some, arith}
use flume_rs.Runtime.Dag.{
  LogicalGraph, NodeKind, PartitionStrategy, new_graph, add_node, add_edge, returns,
  topological_order, link_all, visit, drain,
}
use flume_rs.Runtime.Dag.Links.{InRange}
use flume_rs.Runtime.Dag.Orders.{IsTopological, topological_order_returns, acyclic-IsTopological}

abbrev two_nodes : LogicalGraph
two_nodes = (add_node (add_node new_graph "a" NodeKind.source 1).1 "b" NodeKind.operator 1).1

abbrev four_nodes : LogicalGraph
four_nodes = (add_node (add_node two_nodes "c" NodeKind.operator 1).1 "d" NodeKind.sink 1).1

abbrev forward_edge : LogicalGraph → ℕ → ℕ → LogicalGraph
forward_edge g from to = add_edge g from to PartitionStrategy.forward

abbrev diamond : LogicalGraph
diamond = forward_edge (forward_edge (forward_edge (forward_edge four_nodes 0 1) 0 2) 1 3) 2 3

diamond-InRange : InRange 4 diamond.edges
diamond-InRange = (
  (omega arith, omega arith),
  ((omega arith, omega arith), ((omega arith, omega arith), ((omega arith, omega arith), tt))),
)

topological_order_returns_example :
    (r : Option (List ℕ)) × (topological_order diamond ≡ returns r)
    × ((order : List ℕ) → r ≡ some order → IsTopological diamond order)
topological_order_returns_example = topological_order_returns diamond diamond-InRange (omega arith)

acyclic-IsTopological_example :
    (order : List ℕ) × (topological_order diamond ≡ returns (some order))
    × IsTopological diamond order
acyclic-IsTopological_example =
    acyclic-IsTopological diamond (λ v. v)
      (omega arith, (omega arith, (omega arith, (omega arith, tt)))) diamond-InRange (omega arith)

diamond_order : topological_order diamond ≡ returns (some (0 ∷ 1 ∷ 2 ∷ 3 ∷ []))
unfolding topological_order link_all visit drain
diamond_order = refl

cycle_refused : topological_order (forward_edge (forward_edge two_nodes 0 1) 1 0) ≡ returns none
unfolding topological_order link_all visit drain
cycle_refused = refl
