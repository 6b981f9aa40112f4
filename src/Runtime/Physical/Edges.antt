-- ===== src/Runtime/Physical/Edges.antt =====
-- `generate_edges` of crates/flume-runtime/src/physical.rs.
use flume_rs.Base.{
  ℕ, suc, ◌%◌, List, [], ◌∷◌, ◌++◌, map, flat_map, Option, none, some, length, get_elem?, eqb,
  filter,
}
use flume_rs.Runtime.Dag.{LogicalNode, LogicalEdge, PartitionStrategy}
use flume_rs.Runtime.Physical.{SubtaskId, SubtaskAssignment, PhysicalEdge}

-- The subtasks of a node that are assigned.
abbrev pub assigned : ℕ → List SubtaskAssignment → List SubtaskId
assigned node_id assignments =
    map (λ a. a.subtask_id) (filter (λ a. eqb a.subtask_id.node_id node_id) assignments)

abbrev pub edge : PartitionStrategy → SubtaskId → SubtaskId → PhysicalEdge
edge strategy from to = record { from = from; to = to; partition_strategy = strategy }

-- One edge from each upstream subtask; a remainder by zero panics.
unfoldable pub forward_edges : ℕ → List SubtaskId → List SubtaskId → Option (List PhysicalEdge)
forward_edges i [] tos = some []
forward_edges i (from ∷ froms) tos = elim (get_elem? tos (i % length tos)) [
  | none ↦ none
  | some to ↦ elim (forward_edges (suc i) froms tos) [
    | none ↦ none
    | some rest ↦ some (edge PartitionStrategy.forward from to ∷ rest)
  ]
]

abbrev pub all_to_all : PartitionStrategy → List SubtaskId → List SubtaskId → List PhysicalEdge
all_to_all strategy froms tos = flat_map (λ from. map (edge strategy from) tos) froms

abbrev pub edges_by :
    PartitionStrategy → List SubtaskId → List SubtaskId → Option (List PhysicalEdge)
edges_by PartitionStrategy.forward froms tos = forward_edges 0 froms tos
edges_by PartitionStrategy.hash froms tos = some (all_to_all PartitionStrategy.hash froms tos)
edges_by PartitionStrategy.rebalance froms tos =
    some (all_to_all PartitionStrategy.rebalance froms tos)
edges_by PartitionStrategy.broadcast froms tos =
    some (all_to_all PartitionStrategy.broadcast froms tos)

-- `graph.nodes[from]` and `graph.nodes[to]`, which panic out of range.
abbrev pub checked : {A B : Type 0} → Option A → Option A → Option B → Option B
checked (some a) (some b) c = c
checked (some a) none c = none
checked none b c = none

-- A panic in either part is a panic.
abbrev pub joined : {A : Type 0} → Option (List A) → Option (List A) → Option (List A)
joined (some xs) (some ys) = some (xs ++ ys)
joined (some xs) none = none
joined none ys = none

abbrev pub edges_of :
    List LogicalNode → List SubtaskAssignment → LogicalEdge → Option (List PhysicalEdge)
edges_of nodes assignments e =
    checked (get_elem? nodes e.from) (get_elem? nodes e.to)
      (edges_by e.partition_strategy (assigned e.from assignments) (assigned e.to assignments))

unfoldable pub generate_edges :
    List LogicalNode → List LogicalEdge → List SubtaskAssignment → Option (List PhysicalEdge)
generate_edges nodes [] assignments = some []
generate_edges nodes (e ∷ es) assignments =
    joined (edges_of nodes assignments e) (generate_edges nodes es assignments)
