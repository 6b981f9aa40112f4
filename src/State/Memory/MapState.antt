-- ===== src/State/Memory/MapState.antt =====
-- The methods of `MemoryMapState` of crates/flume-state/src/memory.rs.
use flume_rs.Base.{[], Option}
use flume_rs.Base.Keys.{Eq}
use flume_rs.Base.HashMap
use flume_rs.Core.Result.{Run, return, ◌>>=◌, ◌>>◌}
use flume_rs.State.Memory.{Heap, write, lock_entries, MemoryMapState}
use flume_rs.State.Memory

module _ {K V : Type 0} (s : MemoryMapState) where
  unfoldable pub entries : Run (Heap K V) (HashMap.HashMap K V)
  entries = lock_entries s.inner

  unfoldable pub clear : Run (Heap K V) (Unit {0})
  clear = lock_entries s.inner >> write s.inner (Memory.entries [])

module _ {K V : Type 0} ⦃e : Eq K⦄ (s : MemoryMapState) where
  unfoldable pub get : K → Run (Heap K V) (Option V)
  get key = lock_entries s.inner >>= λ m. return (HashMap.get key m)

  unfoldable pub put : K → V → Run (Heap K V) (Unit {0})
  put key v = lock_entries s.inner >>= λ m. write s.inner (Memory.entries (HashMap.insert key v m))

  unfoldable pub remove : K → Run (Heap K V) (Unit {0})
  remove key = lock_entries s.inner >>= λ m. write s.inner (Memory.entries (HashMap.remove key m))
