-- ===== src/Runtime/Dag.antt =====
-- crates/flume-runtime/src/dag.rs: the logical graph and its topological order. An index out of
-- range panics. The loop over the queue runs on fuel.
pub mod Counts
pub mod Visit
pub mod Links
pub mod Start
pub mod Sorts
pub mod Orders
mod Tests
use Prim.Native.String.{String}
use flume_rs.Base.{
  ℕ, zero, suc, ◌+◌, List, [], ◌∷◌, ◌++◌, Option, none, some, length, get_elem?, set, replicate,
  eqb, if◌then◌else◌, add64, sub64,
}

pub data NodeKind : Type 0 where
  source operator sink : NodeKind

pub data PartitionStrategy : Type 0 where
  forward hash broadcast rebalance : PartitionStrategy

pub record LogicalNode : Type 0 where
  pub id : ℕ
  pub name : String
  pub kind : NodeKind
  pub parallelism : ℕ

pub record LogicalEdge : Type 0 where
  pub from : ℕ
  pub to : ℕ
  pub partition_strategy : PartitionStrategy

pub record LogicalGraph : Type 0 where
  pub nodes : List LogicalNode
  pub edges : List LogicalEdge

abbrev pub new_graph : LogicalGraph
new_graph = record { nodes = []; edges = [] }

abbrev pub add_node : LogicalGraph → String → NodeKind → ℕ → ℕ × LogicalGraph
add_node g name kind parallelism =
    let id = length g.nodes in
    (
      id,
      record g {
        nodes =
            g.nodes ++ record { id = id; name = name; kind = kind; parallelism = parallelism } ∷ [];
      },
    )

abbrev pub add_edge : LogicalGraph → ℕ → ℕ → PartitionStrategy → LogicalGraph
add_edge g from to strategy = record g {
  edges = g.edges ++ record { from = from; to = to; partition_strategy = strategy } ∷ [];
}

-- The end of a run: it returns, it panics, or the model has no fuel left.
pub data Ended (A : Type 0) : Type 0 where
  returns : A → Ended A
  panics : Ended A
  out_of_fuel : Ended A

-- The rows of the adjacency list, and the degrees; `none` is a panic.
abbrev pub Links : Type 0
Links = List (List ℕ) × List ℕ

abbrev pub link : LogicalEdge → Links → Option Links
link e (adjacency, in_degree) = elim (get_elem? adjacency e.from) [
  | none ↦ none
  | some row ↦ elim (get_elem? in_degree e.to) [
    | none ↦ none
    | some d ↦ some (set adjacency e.from (row ++ e.to ∷ []), set in_degree e.to (add64 d 1))
  ]
]

unfoldable pub link_all : List LogicalEdge → Links → Option Links
link_all [] links = some links
link_all (e ∷ es) links = elim (link e links) [ none ↦ none | some links' ↦ link_all es links' ]

-- The nodes of degree 0, from the node `id` on.
abbrev pub sources : ℕ → List ℕ → List ℕ
sources id [] = []
sources id (deg ∷ degs) = if eqb deg 0 then id ∷ sources (suc id) degs else sources (suc id) degs

-- The loop over the neighbours of a node, on the degrees and the queue.
unfoldable pub visit : List ℕ → List ℕ → List ℕ → Option (List ℕ × List ℕ)
visit [] in_degree queue = some (in_degree, queue)
visit (neighbor ∷ neighbors) in_degree queue = elim (get_elem? in_degree neighbor) [
  | none ↦ none
  | some d ↦
      visit neighbors (set in_degree neighbor (sub64 d 1))
        (if eqb (sub64 d 1) 0 then queue ++ neighbor ∷ [] else queue)
]

unfoldable pub drain : ℕ → List (List ℕ) → List ℕ → List ℕ → List ℕ → Ended (List ℕ)
drain fuel adjacency in_degree [] order = returns order
drain zero adjacency in_degree (node ∷ queue) order = out_of_fuel
drain (suc fuel) adjacency in_degree (node ∷ queue) order = elim (get_elem? adjacency node) [
  | none ↦ panics
  | some row ↦ elim (visit row in_degree queue) [
    | none ↦ panics
    | some s ↦ drain fuel adjacency s.0 s.1 (order ++ node ∷ [])
  ]
]

abbrev pub finished : ℕ → Ended (List ℕ) → Ended (Option (List ℕ))
finished n (returns order) = returns (if eqb (length order) n then some order else none)
finished n panics = panics
finished n out_of_fuel = out_of_fuel

-- One unit of fuel for each node.
unfoldable pub topological_order : LogicalGraph → Ended (Option (List ℕ))
topological_order g =
    let n = length g.nodes in
    elim (link_all g.edges (replicate n [], replicate n 0)) [
      | none ↦ panics
      | some links ↦ finished n (drain n links.0 links.1 (sources 0 links.1) [])
    ]
