-- ===== src/State/Memory/ValueState.antt =====
-- The methods of `MemoryValueState` of crates/flume-state/src/memory.rs.
use flume_rs.Base.{Option, none, some}
use flume_rs.Core.Result.{Run, ◌>>◌}
use flume_rs.State.Memory.{Heap, value, write, lock_value, MemoryValueState}

module _ {K V : Type 0} (s : MemoryValueState) where
  unfoldable pub get : Run (Heap K V) (Option V)
  get = lock_value s.inner

  unfoldable pub set : V → Run (Heap K V) (Unit {0})
  set v = lock_value s.inner >> write s.inner (value (some v))

  unfoldable pub clear : Run (Heap K V) (Unit {0})
  clear = lock_value s.inner >> write s.inner (value none)
