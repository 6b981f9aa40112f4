-- ===== src/Runtime/Physical.antt =====
-- crates/flume-runtime/src/physical.rs: the subtasks of a logical graph in the slots of the task
-- managers. The text of an error is left out. A stack of slots is a vector with its end first.
pub mod Edges
pub mod Schedule
pub mod Counts
pub mod Assign
pub mod Places
mod Tests
use Prim.Native.String.{String}
use mathlib.Core.List.{reverse}
use flume_rs.Base.{
  ℕ, zero, suc, ◌+◌, ◌-◌, List, [], ◌∷◌, ◌++◌, map, flat_map, Option, none, some, Bool, length,
  get_elem?, eqb, ltb, leb, filter, if◌then◌else◌, add64, sub64,
}
use flume_rs.Core.Record.{Either, left, right}
use flume_rs.Runtime.Dag.{
  LogicalNode, LogicalGraph, PartitionStrategy, Ended, returns, panics, out_of_fuel,
  topological_order,
}

pub record SubtaskId : Type 0 where
  pub node_id : ℕ
  pub operator_name : String
  pub subtask_index : ℕ

-- A slot: its task manager, and its index there.
abbrev pub Slot : Type 0
Slot = String × ℕ

pub record SubtaskAssignment : Type 0 where
  pub subtask_id : SubtaskId
  pub task_manager_id : String
  pub slot_index : ℕ

pub record PhysicalEdge : Type 0 where
  pub from : SubtaskId
  pub to : SubtaskId
  pub partition_strategy : PartitionStrategy

pub record PhysicalGraph : Type 0 where
  pub assignments : List SubtaskAssignment
  pub edges : List PhysicalEdge

pub data SchedulingStrategy : Type 0 where
  spread pack : SchedulingStrategy

pub record SlotOffer : Type 0 where
  pub task_manager_id : String
  pub total_slots : ℕ
  pub used_slots : ℕ

abbrev pub available : SlotOffer → ℕ
available o = sub64 o.total_slots o.used_slots

-- The errors of `schedule`.
pub data ScheduleError : Type 0 where
  cycle not_enough_slots ran_out_of_slots : ScheduleError

-- `sort_by_key`, which is stable: `before x y` says that `x` may stand before `y`.
module _ {A : Type 0} (before : A → A → Bool) where
  unfoldable pub insert_sorted : A → List A → List A
  insert_sorted x [] = x ∷ []
  insert_sorted x (y ∷ ys) = if before x y then x ∷ y ∷ ys else y ∷ insert_sorted x ys

  unfoldable pub sort_by : List A → List A
  sort_by [] = []
  sort_by (x ∷ xs) = insert_sorted x (sort_by xs)

-- The numbers from `start` on, `count` of them.
abbrev pub range : ℕ → ℕ → List ℕ
range start zero = []
range start (suc count) = start ∷ range (suc start) count

abbrev pub free_slots : SlotOffer → List Slot
free_slots o = map (λ i. (o.task_manager_id, i)) (range o.used_slots (o.total_slots - o.used_slots))

-- One pass over the queues: the first slot of each that has one, and what is left.
abbrev pub pass : List (List Slot) → List Slot × List (List Slot)
pass [] = ([], [])
pass ([] ∷ qs) = let (heads, tails) = pass qs in (heads, [] ∷ tails)
pass ((s ∷ q) ∷ qs) = let (heads, tails) = pass qs in (s ∷ heads, q ∷ tails)

unfoldable pub interleave : ℕ → List (List Slot) → List Slot → Ended (List Slot)
interleave zero queues result = out_of_fuel
interleave (suc fuel) queues result = elim (pass queues).0 [
  | [] ↦ returns result
  | s ∷ heads ↦ interleave fuel (pass queues).1 (result ++ s ∷ heads)
]

-- One pass for each slot, and the last, which finds none.
abbrev pub total_length : List (List Slot) → ℕ
total_length [] = 0
total_length (q ∷ qs) = length q + total_length qs

unfoldable pub build_slot_queue : List SlotOffer → SchedulingStrategy → Ended (List Slot)
build_slot_queue slots SchedulingStrategy.spread =
    let queues = map free_slots (sort_by (λ a b. leb (available b) (available a)) slots) in
    interleave (suc (total_length queues)) queues []
build_slot_queue slots SchedulingStrategy.pack =
    returns (flat_map free_slots (sort_by (λ a b. leb (available a) (available b)) slots))

-- The subtasks of the nodes in this order; `none` is a panic.
abbrev pub subtasks_of : LogicalNode → ℕ → List SubtaskId
subtasks_of node node_id =
    map (λ i. record { node_id = node_id; operator_name = node.name; subtask_index = i })
      (range 0 node.parallelism)

unfoldable pub subtasks : List LogicalNode → List ℕ → Option (List SubtaskId)
subtasks nodes [] = some []
subtasks nodes (node_id ∷ topo) = elim (get_elem? nodes node_id) [
  | none ↦ none
  | some node ↦ elim (subtasks nodes topo) [
    | none ↦ none
    | some rest ↦ some (subtasks_of node node_id ++ rest)
  ]
]

-- Each subtask takes the next slot of the stack; `none` is the error that it is empty.
unfoldable pub assign : List SubtaskId → List Slot → Option (List SubtaskAssignment)
assign [] stack = some []
assign (id ∷ ids) [] = none
assign (id ∷ ids) ((tm, slot) ∷ stack) = elim (assign ids stack) [
  | none ↦ none
  | some rest ↦ some (record { subtask_id = id; task_manager_id = tm; slot_index = slot } ∷ rest)
]

abbrev pub sum64 : List ℕ → ℕ
sum64 [] = 0
sum64 (x ∷ xs) = add64 x (sum64 xs)
