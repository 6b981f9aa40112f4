-- ===== src/State/Memory/Backend/RoundTrip.antt =====
-- A snapshot of crates/flume-state/src/memory.rs, restored later.
use Prim.Native.String.{String}
use flume_rs.Base.{
  some_inj, ◌≡◌, refl, sym, ap, ◌∙◌, [], Option, none, some, All, All-map_of, arith, subst,
  get_elem?,
}
use flume_rs.Base.Keys.{Eq, string_eq}
use flume_rs.Base.HashMap.{HashMap, get, IsMap}
use flume_rs.Base.HashMap.Entries.{Finds-self}
use flume_rs.Core.Record.{Bytes}
use flume_rs.Core.Result.{FlumeResult, ok, err, panic, and_then}
use flume_rs.State.Codec.{Bitcode, IsFaithful}
use flume_rs.State.Memory.{Heap, Content}
use flume_rs.State.Memory.Backend.{
  ErasedState, MemoryStateBackend, or_serialization, snapshot_all, snapshot, restore,
}
use flume_rs.State.Memory.Backend.Live.{address, Live, Same, fresh, encode-Decodes}
use flume_rs.State.Memory.Backend.Snapshot.{Stored, snapshot_all-Stored}
use flume_rs.State.Memory.Backend.Restore.{AllLive, Apart, Readable, restore_loop}

-- No name stands twice, every state is live, and no two share a mutex.
pub record IsValid {K V : Type 0} (b : MemoryStateBackend) (heap : Heap K V) : Type 0 where
  pub is_map : IsMap b.states
  pub live : AllLive b heap
  pub apart : Apart b

-- A call whose result is then serialized.
pub serialized_ok :
    {S A : Type 0} (r : FlumeResult A × S) (f : A → Option Bytes) (bytes : Bytes)
    → (and_then r (λ a. or_serialization (f a))).0 ≡ ok bytes
    → (a : A) × (r ≡ (ok a, r.1)) × (f a ≡ some bytes)
serialized_ok (ok a, s) f bytes h = (a, refl, go (f a) h)
  where
    go : (o : Option Bytes) → (or_serialization o s).0 ≡ ok bytes → o ≡ some bytes
    go none h = cc
    go (some b) h = ground arith
serialized_ok (err e, s) f bytes h = cc
serialized_ok (panic, s) f bytes h = cc

module _ {K V : Type 0} ⦃e : Eq K⦄ (bitcode : Bitcode K V) (b : MemoryStateBackend)
    (heap : Heap K V) where
  -- What a state held in `heap` is what `d` means.
  abbrev AsBefore : String → Content K V → Type 0
  AsBefore name d =
      (s : ErasedState) (c : Content K V) → get name b.states ≡ some s → Live heap s c → Same c d

  states_held : IsValid b heap → All (λ x. (c : Content K V) × Live heap x.1 c) b.states
  states_held v = All-map_of _ _ b.states (λ x h. v.live x.0 x.1 h) (Finds-self b.states v.is_map)

  content-eq : {c d : Content K V} → some (fresh c) ≡ some (fresh d) → c ≡ d
  content-eq h = ap (λ m. m.content) (some_inj h)

  Live-unique :
      (s t : ErasedState) (c d : Content K V) → s ≡ t → Live heap s c → Live heap t d → c ≡ d
  Live-unique s t c d e h k =
      let q = sym h.1 ∙ ap (λ x. get_elem? heap (address x)) e ∙ k.1 in content-eq q

  readable :
      (table t : HashMap String Bytes)
      → IsFaithful bitcode
      → ((name : String) (s : ErasedState)
          → get name b.states ≡ some s
          → Stored bitcode heap table name s)
      → ((name : String) → get name t ≡ get name table)
      → Readable bitcode b AsBefore t
  readable table t faithful stored same name bytes s h k =
      let (c, bytes', live, enc, found) = stored name s k in
      let (d, dec, agree) =
        encode-Decodes bitcode faithful s c bytes live.0 (enc ∙ sym found ∙ sym (same name) ∙ h) in
      (
        d,
        dec,
        λ s' c' k' live'.
            subst (λ x. Same x d) (Live-unique s s' c c' (some_inj (sym k ∙ k')) live live') agree,
      )

  -- A snapshot that succeeds, restored in any later heap where the states are still there, ends
  -- well, and afterwards every state of the backend holds again what it held at the snapshot: a
  -- value or a list itself, a map with the same entries. The backend is the same at both times;
  -- bitcode gives back what it serialized.
  pub restore-snapshot :
      (later : Heap K V) (bytes : Bytes)
      → IsFaithful bitcode
      → IsValid b heap
      → (snapshot bitcode b heap).0 ≡ ok bytes
      → AllLive b later
      → (heap' : Heap K V) × (restore bitcode b bytes later ≡ (ok tt, heap'))
        × AllLive b heap'
        × ((name : String) (s : ErasedState) (c : Content K V)
            → get name b.states ≡ some s
            → Live heap s c
            → (d : Content K V) × Live heap' s d × Same c d)
  unfolding snapshot restore
  restore-snapshot later bytes faithful valid h live =
      let (table, r, ser) =
        serialized_ok (snapshot_all bitcode b.states [] heap) bitcode.table.serialize bytes h in
      let stored = λ (name : String).
        (snapshot_all-Stored bitcode heap b.states [] table _ valid.is_map (states_held valid) r
          name).1 in
      let (t, dec, (m, same)) = faithful.table table bytes ser in
      let (heap', run, live', out) =
        restore_loop bitcode b AsBefore t later valid.apart live m
          (readable table t faithful stored same) in
      (
        heap',
        rw dec run,
        live',
        λ name s c k held.
            let (c', bytes', live', enc, found) = stored name s k in
            let o = (out name s k).1 bytes' (same name ∙ found) in (o.0, o.1, o.2 s c k held),
      )
