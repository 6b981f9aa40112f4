-- ===== src/State/Keyed.antt =====
-- crates/flume-state/src/keyed.rs: a backend for each key. All their states are in one heap. The key
-- is serialized by bitcode; keys of the source are generic, of type `J` here.
pub mod Restart
use Prim.Native.String.{String}
use flume_rs.Base.{List, [], ◌∷◌, Option, none, some, nat_eq, list_eq}
use flume_rs.Base.HashMap.{HashMap, get, insert}
use flume_rs.Core.Record.{Bytes}
use flume_rs.Core.Result.{FlumeResult, Run, ok, err, state, return, for_each, ◌>>=◌}
use flume_rs.State.Codec.{Codec, Bitcode}
use flume_rs.State.Memory.{Heap, MemoryValueState, MemoryListState, MemoryMapState}
use flume_rs.State.Memory.Backend.{MemoryStateBackend, new_backend, or_serialization}
use flume_rs.State.Memory.Backend

pub record KeyedStateBackend : Type 0 where
  pub backends : HashMap Bytes MemoryStateBackend
  pub current_key : Option Bytes

abbrev pub new_keyed : KeyedStateBackend
new_keyed = record { backends = []; current_key = none }

unfoldable pub set_current_key : {J : Type 0} → Codec J → J → Run KeyedStateBackend (Unit {0})
set_current_key codec key = or_serialization (codec.serialize key) >>= λ bytes k.
    (ok tt, record k { current_key = some bytes })

abbrev pub clear_current_key : KeyedStateBackend → KeyedStateBackend
clear_current_key k = record k { current_key = none }

-- `entry(key).or_default()`
abbrev pub or_default : Option MemoryStateBackend → MemoryStateBackend
or_default none = new_backend
or_default (some b) = b

module _ {K V A : Type 0} where
  -- The backend of the key is taken out, used, and put back.
  abbrev pub put_back :
      KeyedStateBackend
      → Bytes
      → FlumeResult A × (MemoryStateBackend × Heap K V)
      → FlumeResult A × (KeyedStateBackend × Heap K V)
  put_back k key (r, (b, heap)) = (r, (record k { backends = insert key b k.backends }, heap))

  abbrev at_key :
      Run (MemoryStateBackend × Heap K V) A → Option Bytes → Run (KeyedStateBackend × Heap K V) A
  at_key m none s = (err state, s)
  at_key m (some key) (k, heap) = put_back k key (m (or_default (get key k.backends), heap))

  -- `self.current_backend()?.m()`
  unfoldable pub on_current :
      Run (MemoryStateBackend × Heap K V) A → Run (KeyedStateBackend × Heap K V) A
  on_current m (k, heap) = at_key m k.current_key (k, heap)

module _ {K V : Type 0} (name : String) where
  abbrev pub create_value_state : Run (KeyedStateBackend × Heap K V) MemoryValueState
  create_value_state = on_current (Backend.create_value_state name)

  abbrev pub create_list_state : Run (KeyedStateBackend × Heap K V) MemoryListState
  create_list_state = on_current (Backend.create_list_state name)

  abbrev pub create_map_state : Run (KeyedStateBackend × Heap K V) MemoryMapState
  create_map_state = on_current (Backend.create_map_state name)

module _ {K V : Type 0} (bitcode : Bitcode K V) where
  unfoldable pub snapshot_all :
      HashMap Bytes MemoryStateBackend → HashMap Bytes Bytes → Run (Heap K V) (HashMap Bytes Bytes)
  snapshot_all [] table = return table
  snapshot_all ((key, b) ∷ backends) table =
      Backend.snapshot bitcode b >>= λ bytes. snapshot_all backends (insert key bytes table)

  unfoldable pub snapshot : KeyedStateBackend → Run (Heap K V) Bytes
  snapshot k =
      snapshot_all k.backends [] >>= λ table. or_serialization (bitcode.keyed_table.serialize table)

  -- A key that has no backend is passed over.
  abbrev pub restore_found : Option MemoryStateBackend → Bytes → Run (Heap K V) (Unit {0})
  restore_found none bytes = return tt
  restore_found (some b) bytes = Backend.restore bitcode b bytes

  abbrev pub restore_entry : KeyedStateBackend → Bytes × Bytes → Run (Heap K V) (Unit {0})
  restore_entry k (key, bytes) = restore_found (get key k.backends) bytes

  unfoldable pub restore : KeyedStateBackend → Bytes → Run (Heap K V) (Unit {0})
  restore k bytes =
      or_serialization (bitcode.keyed_table.deserialize bytes) >>= for_each (restore_entry k)
