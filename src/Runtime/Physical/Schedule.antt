-- ===== src/Runtime/Physical/Schedule.antt =====
-- `schedule` of crates/flume-runtime/src/physical.rs.
use mathlib.Core.List.{reverse}
use flume_rs.Base.{ℕ, List, map, Option, none, some, ltb, if◌then◌else◌}
use flume_rs.Core.Record.{Either, left, right}
use flume_rs.Runtime.Dag.{LogicalGraph, Ended, returns, panics, out_of_fuel, topological_order}
use flume_rs.Runtime.Physical.{
  Slot, SubtaskId, SubtaskAssignment, PhysicalEdge, PhysicalGraph, SchedulingStrategy, SlotOffer,
  available, ScheduleError, cycle, not_enough_slots, ran_out_of_slots, build_slot_queue, subtasks,
  assign, sum64,
}
use flume_rs.Runtime.Physical.Edges.{generate_edges}

-- The result of `schedule`: an error is on the left.
abbrev pub Scheduled : Type 0
Scheduled = Ended (Either ScheduleError PhysicalGraph)

module _ (g : LogicalGraph) where
  abbrev pub with_edges : List SubtaskAssignment → Option (List PhysicalEdge) → Scheduled
  with_edges assignments none = panics
  with_edges assignments (some edges) =
      returns (right (record { assignments = assignments; edges = edges }))

  abbrev pub with_assignments : Option (List SubtaskAssignment) → Scheduled
  with_assignments none = returns (left ran_out_of_slots)
  with_assignments (some assignments) =
      with_edges assignments (generate_edges g.nodes g.edges assignments)

  abbrev pub with_subtasks : List Slot → Option (List SubtaskId) → Scheduled
  with_subtasks stack none = panics
  with_subtasks stack (some ids) = with_assignments (assign ids stack)

  -- `slot_queue.pop()` takes the end of the vector first.
  abbrev pub with_queue : List ℕ → Ended (List Slot) → Scheduled
  with_queue topo (returns queue) = with_subtasks (reverse queue) (subtasks g.nodes topo)
  with_queue topo panics = panics
  with_queue topo out_of_fuel = out_of_fuel

  abbrev pub total_subtasks : ℕ
  total_subtasks = sum64 (map (λ n. n.parallelism) g.nodes)

  abbrev pub with_order : List SlotOffer → SchedulingStrategy → Ended (Option (List ℕ)) → Scheduled
  with_order slots strategy (returns (some topo)) =
      if ltb (sum64 (map available slots)) total_subtasks
      then returns (left not_enough_slots)
      else with_queue topo (build_slot_queue slots strategy)
  with_order slots strategy (returns none) = returns (left cycle)
  with_order slots strategy panics = panics
  with_order slots strategy out_of_fuel = out_of_fuel

  unfoldable pub schedule : List SlotOffer → SchedulingStrategy → Scheduled
  schedule slots strategy = with_order slots strategy (topological_order g)
