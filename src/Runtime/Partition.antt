-- ===== src/Runtime/Partition.antt =====
-- crates/flume-runtime/src/partition.rs: the choice of the downstream subtasks of a record. The
-- hash of the crate `ahash` is a parameter: a function from the bytes of a key to a number.
pub mod Targets
pub mod Balance
mod Tests
use flume_rs.Base.{ℕ, zero, suc, ◌%◌, List, [], ◌∷◌, ◌++◌, Option, eqb, if◌then◌else◌, add64}
use flume_rs.Core.Record.{Bytes}
use flume_rs.Core.Result.{Run, FlumeResult, ok, panic}
use flume_rs.Core.Operator.Keyed.{or_create}

pub data Partitioner : Type 0 where
  forward hash broadcast : Partitioner
  rebalance : ℕ → Partitioner

-- The range `0..n`.
abbrev pub up_to : ℕ → List ℕ
up_to zero = []
up_to (suc n) = up_to n ++ n ∷ []

-- A remainder by zero panics.
abbrev pub target : ℕ → ℕ → FlumeResult (List ℕ)
target n num_targets = if eqb num_targets 0 then panic else ok (n % num_targets ∷ [])

module _ (hash_one : Bytes → ℕ) where
  abbrev pub hash_partition : Bytes → ℕ → FlumeResult (List ℕ)
  hash_partition key num_partitions = target (hash_one key) num_partitions

  unfoldable pub select : Option Bytes → ℕ → ℕ → Run Partitioner (List ℕ)
  select key source_index num_targets Partitioner.forward =
      (target source_index num_targets, Partitioner.forward)
  select key source_index num_targets Partitioner.hash =
      (hash_partition (or_create key []) num_targets, Partitioner.hash)
  select key source_index num_targets Partitioner.broadcast =
      (ok (up_to num_targets), Partitioner.broadcast)
  select key source_index num_targets (Partitioner.rebalance next) = (
    target next num_targets,
    Partitioner.rebalance (if eqb num_targets 0 then next else add64 next 1),
  )
