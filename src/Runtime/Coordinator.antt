-- ===== src/Runtime/Coordinator.antt =====
-- crates/flume-runtime/src/checkpoint/coordinator.rs: one checkpoint. What the receive of the next
-- acknowledgement gives, before the deadline or at it, is a list of arrivals. The snapshot store
-- writes files, and is an interface here: its two methods that a checkpoint calls.
pub mod Complete
mod Tests
use Prim.Native.String.{String}
use flume_rs.Base.{
  ℕ, List, [], ◌∷◌, Bool, true, false, ◌||◌, ◌==◌, length, ltb, eqb, if◌then◌else◌, add64,
}
use flume_rs.Base.Keys.{string_eq}
use flume_rs.Core.Record.{Bytes, CheckpointBarrier, CheckpointAck}
use flume_rs.Core.Result.{FlumeResult, ok, err, Run}

pub data CheckpointResult : Type 0 where
  success timeout pipeline_shutdown : CheckpointResult

pub data Arrival : Type 0 where
  ack : CheckpointAck → Arrival
  closed late : Arrival

pub record SnapshotStore (D : Type 0) : Type 0 where
  pub save_state : ℕ → String → Bytes → D → Bool × D
  pub commit : ℕ → D → Bool × D

-- `received`, a hash set of names.
abbrev pub contains : String → List String → Bool
contains name [] = false
contains name (n ∷ ns) = n == name || contains name ns

abbrev pub insert : String → List String → List String
insert name ns = if contains name ns then ns else name ∷ ns

-- The loop that sends the barrier to every source; it ends at the first that is gone.
abbrev pub inject :
    {D : Type 0} → List (CheckpointBarrier → D → Bool × D) → CheckpointBarrier → D → Bool × D
inject [] barrier d = (true, d)
inject (send ∷ senders) barrier d =
    let (sent, d') = send barrier d in
    let rest = inject senders barrier d' in if sent then rest else (false, d')

-- `CheckpointBarrier::new(checkpoint_id, EventTimestamp::new(0))`
abbrev pub barrier_of : ℕ → CheckpointBarrier
barrier_of checkpoint_id = record { checkpoint_id = checkpoint_id; timestamp = 0 }

module _ {D : Type 0} (store : SnapshotStore D) (expected_operators : List String) where
  abbrev pub finish : ℕ → D → CheckpointResult × D
  finish checkpoint_id d =
      let (fine, d') = store.commit checkpoint_id d in (if fine then success else timeout, d')

  -- The loop that collects acknowledgements. Arrivals that have run out are a deadline that passed.
  unfoldable pub collect : List Arrival → ℕ → List String → D → CheckpointResult × D
  collect [] checkpoint_id received d =
      if ltb (length received) (length expected_operators)
      then (timeout, d)
      else finish checkpoint_id d
  collect (closed ∷ arrivals) checkpoint_id received d =
      if ltb (length received) (length expected_operators)
      then (pipeline_shutdown, d)
      else finish checkpoint_id d
  collect (late ∷ arrivals) checkpoint_id received d =
      if ltb (length received) (length expected_operators)
      then (timeout, d)
      else finish checkpoint_id d
  collect (ack a ∷ arrivals) checkpoint_id received d =
      let (saved, d') = store.save_state checkpoint_id a.operator_name a.state_bytes d in
      let counted = collect arrivals checkpoint_id (insert a.operator_name received) d' in
      let ignored = collect arrivals checkpoint_id received d in
      if ltb (length received) (length expected_operators)
      then if eqb a.checkpoint_id checkpoint_id
        then if saved then counted else (timeout, d')
        else ignored
      else finish checkpoint_id d

  unfoldable pub trigger_and_collect :
      List (CheckpointBarrier → D → Bool × D) → List Arrival → ℕ → D → CheckpointResult × D
  trigger_and_collect senders arrivals checkpoint_id d =
      let (open_all, d') = inject senders (barrier_of checkpoint_id) d in
      let result = collect arrivals checkpoint_id [] d' in
      if open_all then result else (pipeline_shutdown, d')
