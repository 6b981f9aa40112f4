-- ===== src/State/Memory/Backend/Live.antt =====
-- The states of a backend of crates/flume-state/src/memory.rs in the heap.
use flume_rs.Base.{List, ℕ, ◌≡◌, refl, Option, some, false, get_elem?, set}
use flume_rs.Base.Keys.{Eq, string_eq}
use flume_rs.Base.HashMap.{HashMap}
use flume_rs.Core.Record.{Bytes}
use flume_rs.Core.Result.{ok}
use flume_rs.State.Codec.{Bitcode, SameMap, IsFaithful}
use flume_rs.State.Memory.{Heap, Mutex, Content, value, list, entries}
use flume_rs.State.Memory.Backend.{
  ErasedState, value_state, list_state, map_state, or_serialization, snapshot_bytes, restore_bytes,
}

abbrev pub address : ErasedState → ℕ
address (value_state a) = a
address (list_state a) = a
address (map_state a) = a

-- The content is of the type that the wrapper names.
pub data Fits {K V : Type 0} : ErasedState → Content K V → Type 0 where
  value_fits : (a : ℕ) (v : Option V) → Fits (value_state a) (value v)
  list_fits : (a : ℕ) (vs : List V) → Fits (list_state a) (list vs)
  map_fits : (a : ℕ) (m : HashMap K V) → Fits (map_state a) (entries m)

-- The bytes, read as the wrapper reads them, give the content.
pub data Decodes {K V : Type 0} (bitcode : Bitcode K V) (bytes : Bytes)
    : ErasedState → Content K V → Type 0 where
  value_decodes :
      (a : ℕ) (v : Option V)
      → bitcode.value.deserialize bytes ≡ some v
      → Decodes bitcode bytes (value_state a) (value v)
  list_decodes :
      (a : ℕ) (vs : List V)
      → bitcode.list.deserialize bytes ≡ some vs
      → Decodes bitcode bytes (list_state a) (list vs)
  map_decodes :
      (a : ℕ) (m : HashMap K V)
      → bitcode.entries.deserialize bytes ≡ some m
      → Decodes bitcode bytes (map_state a) (entries m)

module _ {K V : Type 0} where
  abbrev pub fresh : Content K V → Mutex K V
  fresh c = record { content = c; poisoned = false }

  -- The mutex of the state holds `c`, is not poisoned, and is of its type.
  abbrev pub Live : Heap K V → ErasedState → Content K V → Type 0
  Live heap s c = Fits s c × (get_elem? heap (address s) ≡ some (fresh c))

  -- Two contents with the same meaning.
  abbrev pub Same : ⦃e : Eq K⦄ → Content K V → Content K V → Type 0
  Same (value v) (value w) = w ≡ v
  Same (list vs) (list ws) = ws ≡ vs
  Same (entries m) (entries n) = SameMap m n
  Same _ _ = ⊥

module _ {K V : Type 0} (bitcode : Bitcode K V) where
  abbrev pub encode : Content K V → Option Bytes
  encode (value v) = bitcode.value.serialize v
  encode (list vs) = bitcode.list.serialize vs
  encode (entries m) = bitcode.entries.serialize m

  pub snapshot_bytes-Live :
      (heap : Heap K V) (s : ErasedState) (c : Content K V)
      → Live heap s c
      → snapshot_bytes bitcode s heap ≡ or_serialization (encode c) heap
  snapshot_bytes-Live heap _ _ (value_fits a v, h) = rw h refl
  snapshot_bytes-Live heap _ _ (list_fits a v, h) = rw h refl
  snapshot_bytes-Live heap _ _ (map_fits a v, h) = rw h refl

  pub restore_bytes-Live :
      (heap : Heap K V) (s : ErasedState) (bytes : Bytes) (c d : Content K V)
      → Live heap s c
      → Decodes bitcode bytes s d
      → Fits s d × (restore_bytes bitcode s bytes heap ≡ (ok tt, set heap (address s) (fresh d)))
  restore_bytes-Live heap _ bytes _ _ (value_fits a v, h) (value_decodes _ w k) =
      (value_fits a w, rw (k, h) refl)
  restore_bytes-Live heap _ bytes _ _ (list_fits a v, h) (list_decodes _ w k) =
      (list_fits a w, rw (k, h) refl)
  restore_bytes-Live heap _ bytes _ _ (map_fits a v, h) (map_decodes _ w k) =
      (map_fits a w, rw (k, h) refl)

  pub encode-Decodes :
      ⦃e : Eq K⦄ (faithful : IsFaithful bitcode) (s : ErasedState) (c : Content K V) (bytes : Bytes)
      → Fits s c
      → encode c ≡ some bytes
      → (d : Content K V) × Decodes bitcode bytes s d × Same c d
  encode-Decodes faithful _ _ bytes (value_fits a v) h =
      let r = faithful.value v bytes h in (value r.0, value_decodes a r.0 r.1, r.2)
  encode-Decodes faithful _ _ bytes (list_fits a v) h =
      let r = faithful.list v bytes h in (list r.0, list_decodes a r.0 r.1, r.2)
  encode-Decodes faithful _ _ bytes (map_fits a v) h =
      let r = faithful.entries v bytes h in (entries r.0, map_decodes a r.0 r.1, r.2)
