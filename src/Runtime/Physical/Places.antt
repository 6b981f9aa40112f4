-- ===== src/Runtime/Physical/Places.antt =====
-- What `schedule` of crates/flume-runtime/src/physical.rs gives.
use flume_rs.Base.{ℕ, ◌^◌, ◌≤◌, ◌<◌, ◌≡◌, List, map, flat_map, some, Bool}
use flume_rs.Core.Record.{right}
use flume_rs.Runtime.Dag.{LogicalGraph, returns}
use flume_rs.Runtime.Dag.Orders.{IsTopological}
use flume_rs.Runtime.Physical.{
  Slot, PhysicalGraph, SlotOffer, SchedulingStrategy, free_slots, subtasks,
}
use flume_rs.Runtime.Physical.Edges.{generate_edges}
use flume_rs.Runtime.Physical.Schedule.{schedule}
use flume_rs.Runtime.Physical.Counts.{count_if}
use flume_rs.Runtime.Physical.Assign.{slot_of}

-- An offer does not use more slots than it has, and their number is a word.
abbrev pub Sound : SlotOffer → Type 0
Sound o = (o.used_slots ≤ o.total_slots) × (o.total_slots < 2 ^ 64)

abbrev slot_at : SlotOffer → ℕ → Slot
slot_at o i = (o.task_manager_id, i)

module _ (g : LogicalGraph) (slots : List SlotOffer) (strategy : SchedulingStrategy) where
  -- The result of a good run, and what it satisfies.
  abbrev pub IsPlaced : PhysicalGraph → List ℕ → Type 0
  IsPlaced p order =
      (schedule g slots strategy ≡ returns (right p))
      × IsTopological g order
      × (subtasks g.nodes order ≡ some (map (λ a. a.subtask_id) p.assignments))
      × ((q : Slot → Bool)
          → count_if q (map slot_of p.assignments) ≤ count_if q (flat_map free_slots slots))
      × (generate_edges g.nodes g.edges p.assignments ≡ some p.edges)
