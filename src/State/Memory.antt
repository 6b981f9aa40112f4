-- ===== src/State/Memory.antt =====
-- crates/flume-state/src/memory.rs and erased.rs: the heap and the handles; ValueState, ListState and
-- MapState have the methods of the handles, Backend has the backend. The handle of a state and the backend share the
-- state's mutex through an `Arc`: the mutexes stand in a heap, and an `Arc` is an address in it. A
-- mutex is poisoned when a thread panicked while it held the lock; `lock` then gives an error.
pub mod ValueState
pub mod ListState
pub mod MapState
pub mod Backend
use flume_rs.Base.{
  ℕ, Bool, false, List, [], ◌∷◌, ◌++◌, Option, none, some, length, get_elem?, set, if◌then◌else◌,
}
use flume_rs.Base.HashMap.{HashMap}
use flume_rs.Core.Result.{FlumeResult, Run, ok, err, panic, state, ◌>>=◌}

-- What a mutex holds: a `SharedValue`, a `SharedList` or a `SharedMap`.
pub data Content (K V : Type 0) : Type 0 where
  value : Option V → Content K V
  list : List V → Content K V
  entries : HashMap K V → Content K V

pub record Mutex (K V : Type 0) : Type 0 where
  pub content : Content K V
  pub poisoned : Bool

abbrev pub Heap : Type 0 → Type 0 → Type 0
Heap K V = List (Mutex K V)

-- `Arc::new(Mutex::new(content))`
module _ {K V : Type 0} where
  abbrev pub allocate : Content K V → Run (Heap K V) ℕ
  allocate c heap = (ok (length heap), heap ++ record { content = c; poisoned = false } ∷ [])

  -- The lock of a mutex, and what it guards. Every address in use is one of the heap.
  abbrev pub unlock : Option (Mutex K V) → FlumeResult (Content K V)
  unlock none = panic
  unlock (some m) = if m.poisoned then err state else ok m.content

  abbrev pub lock : ℕ → Run (Heap K V) (Content K V)
  lock a heap = (unlock (get_elem? heap a), heap)

  -- `*guard = content`, under the lock.
  abbrev pub write : ℕ → Content K V → Run (Heap K V) (Unit {0})
  write a c heap = (ok tt, set heap a (record { content = c; poisoned = false }))

-- The mutex of a handle holds what the type of the handle says; the other cases do not occur.
module _ {K V : Type 0} where
  abbrev pub as_value : Content K V → Run (Heap K V) (Option V)
  as_value (value v) heap = (ok v, heap)
  as_value (list vs) heap = (panic, heap)
  as_value (entries m) heap = (panic, heap)

  abbrev pub as_list : Content K V → Run (Heap K V) (List V)
  as_list (value v) heap = (panic, heap)
  as_list (list vs) heap = (ok vs, heap)
  as_list (entries m) heap = (panic, heap)

  abbrev pub as_entries : Content K V → Run (Heap K V) (HashMap K V)
  as_entries (value v) heap = (panic, heap)
  as_entries (list vs) heap = (panic, heap)
  as_entries (entries m) heap = (ok m, heap)

  abbrev pub lock_value : ℕ → Run (Heap K V) (Option V)
  lock_value a = lock a >>= as_value

  abbrev pub lock_list : ℕ → Run (Heap K V) (List V)
  lock_list a = lock a >>= as_list

  abbrev pub lock_entries : ℕ → Run (Heap K V) (HashMap K V)
  lock_entries a = lock a >>= as_entries

-- The handles, each the address of its mutex.
pub record MemoryValueState : Type 0 where
  pub inner : ℕ

pub record MemoryListState : Type 0 where
  pub inner : ℕ

pub record MemoryMapState : Type 0 where
  pub inner : ℕ
