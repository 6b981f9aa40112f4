-- ===== src/State/Memory/ListState.antt =====
-- The methods of `MemoryListState` of crates/flume-state/src/memory.rs.
use flume_rs.Base.{List, [], ◌∷◌, ◌++◌}
use flume_rs.Core.Result.{Run, ◌>>=◌, ◌>>◌}
use flume_rs.State.Memory.{Heap, list, write, lock_list, MemoryListState}

module _ {K V : Type 0} (s : MemoryListState) where
  unfoldable pub get : Run (Heap K V) (List V)
  get = lock_list s.inner

  unfoldable pub add : V → Run (Heap K V) (Unit {0})
  add v = lock_list s.inner >>= λ vs. write s.inner (list (vs ++ v ∷ []))

  unfoldable pub clear : Run (Heap K V) (Unit {0})
  clear = lock_list s.inner >> write s.inner (list [])
