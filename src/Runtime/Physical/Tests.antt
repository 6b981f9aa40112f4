-- ===== src/Runtime/Physical/Tests.antt =====
-- The theorem on physical.rs at a source and a sink on two task managers.
use flume_rs.Base.{◌≡◌, refl, List, [], ◌∷◌}
use flume_rs.Runtime.Dag.{
  LogicalGraph, NodeKind, PartitionStrategy, new_graph, add_node, add_edge, returns,
}
use flume_rs.Runtime.Physical.{
  SlotOffer, SchedulingStrategy, build_slot_queue, insert_sorted, sort_by, interleave,
}

abbrev two_nodes : LogicalGraph
two_nodes = (add_node (add_node new_graph "source" NodeKind.source 1).1 "sink" NodeKind.sink 2).1

abbrev pipeline : LogicalGraph
pipeline = add_edge two_nodes 0 1 PartitionStrategy.forward

abbrev offers : List SlotOffer
offers =
    record { task_manager_id = "tm-1"; total_slots = 1; used_slots = 0 }
    ∷ record { task_manager_id = "tm-2"; total_slots = 4; used_slots = 1 }
    ∷ []

-- The queue of `pack` begins with the task manager that has the fewest free slots; `schedule` takes
-- slots from its end.
pack_queue :
    build_slot_queue offers SchedulingStrategy.pack
    ≡ returns (("tm-1", 0) ∷ ("tm-2", 1) ∷ ("tm-2", 2) ∷ ("tm-2", 3) ∷ [])
unfolding build_slot_queue insert_sorted sort_by
pack_queue = refl

spread_queue :
    build_slot_queue offers SchedulingStrategy.spread
    ≡ returns (("tm-2", 1) ∷ ("tm-1", 0) ∷ ("tm-2", 2) ∷ ("tm-2", 3) ∷ [])
unfolding build_slot_queue insert_sorted sort_by interleave
spread_queue = refl
