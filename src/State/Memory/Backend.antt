-- ===== src/State/Memory/Backend.antt =====
-- `ErasedState` and `MemoryStateBackend` of crates/flume-state/src/erased.rs and memory.rs. The
-- backend keeps, under its name, the address of each state that it created.
pub mod Live
pub mod Snapshot
pub mod Restore
pub mod RoundTrip
pub mod Create
pub mod Fresh
use Prim.Native.String.{String}
use flume_rs.Base.{ℕ, List, [], ◌∷◌, Option, none, some, if◌then◌else◌}
use flume_rs.Base.Keys.{string_eq}
use flume_rs.Base.HashMap.{HashMap, get, insert, contains_key}
use flume_rs.Core.Record.{Bytes}
use flume_rs.Core.Result.{
  Run, ok, err, state, serialization, return, for_each, on_first, on_second, ◌>>=◌, ◌>>◌,
}
use flume_rs.State.Codec.{Bitcode}
use flume_rs.State.Memory.{
  Heap, Content, value, list, entries, allocate, write, lock_value, lock_list, lock_entries,
  MemoryValueState, MemoryListState, MemoryMapState,
}

-- `ErasedValueState`, `ErasedListState` and `ErasedMapState`.
pub data ErasedState : Type 0 where
  value_state list_state map_state : ℕ → ErasedState

pub record MemoryStateBackend : Type 0 where
  pub states : HashMap String ErasedState

abbrev pub new_backend : MemoryStateBackend
new_backend = record { states = [] }

-- `map_err(|e| FlumeError::Serialization(..))`
abbrev pub or_serialization : {S A : Type 0} → Option A → Run S A
or_serialization none s = (err serialization, s)
or_serialization (some a) s = (ok a, s)

module _ {K V : Type 0} (bitcode : Bitcode K V) where
  abbrev pub snapshot_value : ℕ → Run (Heap K V) Bytes
  snapshot_value a = lock_value a >>= λ v. or_serialization (bitcode.value.serialize v)

  abbrev pub snapshot_list : ℕ → Run (Heap K V) Bytes
  snapshot_list a = lock_list a >>= λ vs. or_serialization (bitcode.list.serialize vs)

  abbrev pub snapshot_entries : ℕ → Run (Heap K V) Bytes
  snapshot_entries a = lock_entries a >>= λ m. or_serialization (bitcode.entries.serialize m)

  abbrev pub restore_value : ℕ → Bytes → Run (Heap K V) (Unit {0})
  restore_value a bytes = or_serialization (bitcode.value.deserialize bytes) >>= λ v.
      (lock_value a >> write a (value v))

  abbrev pub restore_list : ℕ → Bytes → Run (Heap K V) (Unit {0})
  restore_list a bytes =
      or_serialization (bitcode.list.deserialize bytes) >>= λ vs. (lock_list a >> write a (list vs))

  abbrev pub restore_entries : ℕ → Bytes → Run (Heap K V) (Unit {0})
  restore_entries a bytes = or_serialization (bitcode.entries.deserialize bytes) >>= λ m.
      (lock_entries a >> write a (entries m))

  -- The methods of the trait `ErasedState`, on whichever wrapper it is.
  abbrev pub snapshot_bytes : ErasedState → Run (Heap K V) Bytes
  snapshot_bytes (value_state a) = snapshot_value a
  snapshot_bytes (list_state a) = snapshot_list a
  snapshot_bytes (map_state a) = snapshot_entries a

  abbrev pub restore_bytes : ErasedState → Bytes → Run (Heap K V) (Unit {0})
  restore_bytes (value_state a) = restore_value a
  restore_bytes (list_state a) = restore_list a
  restore_bytes (map_state a) = restore_entries a

  -- The loop of `snapshot`, on the map that it fills.
  unfoldable pub snapshot_all :
      HashMap String ErasedState → HashMap String Bytes → Run (Heap K V) (HashMap String Bytes)
  snapshot_all [] table = return table
  snapshot_all ((name, s) ∷ states) table =
      snapshot_bytes s >>= λ bytes. snapshot_all states (insert name bytes table)

  unfoldable pub snapshot : MemoryStateBackend → Run (Heap K V) Bytes
  snapshot b =
      snapshot_all b.states [] >>= λ table. or_serialization (bitcode.table.serialize table)

  -- The body of the loop of `restore`: a name that the backend does not have is passed over.
  abbrev pub restore_found : Option ErasedState → Bytes → Run (Heap K V) (Unit {0})
  restore_found none bytes = return tt
  restore_found (some s) bytes = restore_bytes s bytes

  abbrev pub restore_entry : MemoryStateBackend → String × Bytes → Run (Heap K V) (Unit {0})
  restore_entry b (name, bytes) = restore_found (get name b.states) bytes

  unfoldable pub restore : MemoryStateBackend → Bytes → Run (Heap K V) (Unit {0})
  restore b bytes =
      or_serialization (bitcode.table.deserialize bytes) >>= for_each (restore_entry b)

abbrev pub add_state : String → ErasedState → MemoryStateBackend → MemoryStateBackend
add_state name s b = record { states = insert name s b.states }

module _ {K V : Type 0} (name : String) where
  abbrev pub check_duplicate : Run (MemoryStateBackend × Heap K V) (Unit {0})
  check_duplicate (b, heap) =
      if contains_key name b.states then (err state, (b, heap)) else (ok tt, (b, heap))

  -- What the three `create` functions do; they differ in the content and in the erased wrapper.
  abbrev pub create : Content K V → (ℕ → ErasedState) → Run (MemoryStateBackend × Heap K V) ℕ
  create content erase = do
    check_duplicate
    a ← on_second (allocate content)
    on_first (add_state name (erase a))
    return a

  unfoldable pub create_value_state : Run (MemoryStateBackend × Heap K V) MemoryValueState
  create_value_state =
      create (value none) (λ a. value_state a) >>= λ a. return (record { inner = a })

  unfoldable pub create_list_state : Run (MemoryStateBackend × Heap K V) MemoryListState
  create_list_state = create (list []) (λ a. list_state a) >>= λ a. return (record { inner = a })

  unfoldable pub create_map_state : Run (MemoryStateBackend × Heap K V) MemoryMapState
  create_map_state = create (entries []) (λ a. map_state a) >>= λ a. return (record { inner = a })
