-- ===== src/State/Memory/Backend/Snapshot.antt =====
-- What `snapshot` and `restore` of crates/flume-state/src/memory.rs do, loop by loop.
use Prim.Native.String.{String}
use flume_rs.Base.{
  ◌≡◌, refl, sym, ap, ◌∙◌, [], ◌∷◌, none, some, true, All, Bool-cases, Option-cases, inl, inr, ◌==◌,
  arith, subst,
}
use flume_rs.Base.Keys.{string_eq, nat_eq}
use flume_rs.Base.HashMap.{HashMap, get, insert, get-insert, IsMap}
use flume_rs.Core.Record.{Bytes}
use flume_rs.Core.Result.{Run, ok, and_then}
use flume_rs.State.Codec.{Bitcode}
use flume_rs.State.Memory.{Heap, Content}
use flume_rs.State.Memory.Backend.{ErasedState, or_serialization, snapshot_all}
use flume_rs.State.Memory.Backend.Live.{Live, encode, snapshot_bytes-Live}

module _ {K V : Type 0} (bitcode : Bitcode K V) (heap : Heap K V) where
  -- The table has, for the state `s` of this name, the encoding of what it holds.
  abbrev pub Stored : HashMap String Bytes → String → ErasedState → Type 0
  Stored table name s =
      (c : Content K V) × (bytes : Bytes) × Live heap s c
      × (encode bitcode c ≡ some bytes)
      × (get name table ≡ some bytes)

  abbrev rest :
      String
      → HashMap String ErasedState
      → HashMap String Bytes
      → Bytes
      → Run (Heap K V) (HashMap String Bytes)
  rest n states table bytes = snapshot_all bitcode states (insert n bytes table)

  step :
      (n : String) (s : ErasedState) (states : HashMap String ErasedState)
      (table : HashMap String Bytes) (c : Content K V)
      → Live heap s c
      → snapshot_all bitcode ((n, s) ∷ states) table heap
        ≡ and_then (or_serialization (encode bitcode c) heap) (rest n states table)
  unfolding snapshot_all
  step n s states table c live =
      ap (λ r. and_then r (rest n states table)) (snapshot_bytes-Live bitcode heap s c live)

  found :
      (n : String) (bytes : Bytes) (table : HashMap String Bytes)
      (states : HashMap String ErasedState) (t : HashMap String Bytes) (name : String)
      → (n == name) ≡ true
      → get n states ≡ none
      → (get name states ≡ none → get name t ≡ get name (insert n bytes table))
      → get name t ≡ some bytes
  found n bytes table states t name q absent h =
      let e = (string_eq.equals_iff n name).0 q in
      h (subst (λ x. get x states ≡ none) e absent) ∙ get-insert n name bytes table ∙ rw q refl

  pub snapshot_all-Stored :
      (states : HashMap String ErasedState) (table t : HashMap String Bytes) (heap' : Heap K V)
      → IsMap states
      → All (λ x. (c : Content K V) × Live heap x.1 c) states
      → snapshot_all bitcode states table heap ≡ (ok t, heap')
      → (name : String)
      → (get name states ≡ none → get name t ≡ get name table)
        × ((s : ErasedState) → get name states ≡ some s → Stored t name s)
  unfolding snapshot_all get
  snapshot_all-Stored [] table t heap' m live h name = (λ _. ground (arith), λ s e. cc)
  snapshot_all-Stored ((n, s) ∷ states) table t heap' m live h name =
      elim (Option-cases (encode bitcode live.0.0)) [
        | inl e ↦
            let k =
              sym (
                step n s states table live.0.0 live.0.1
                ∙ ap (λ o. and_then (or_serialization o heap) (rest n states table)) e)
              ∙ h in
            cc
        | inr (bytes, e) ↦
            let k =
              sym (
                step n s states table live.0.0 live.0.1
                ∙ ap (λ o. and_then (or_serialization o heap) (rest n states table)) e)
              ∙ h in
            let ih = snapshot_all-Stored states (insert n bytes table) t heap' m.1 live.1 k name in
            elim (Bool-cases (n == name)) [
              | inl q ↦ rw q (
                λ r. cc,
                λ s' r. (
                  live.0.0,
                  bytes,
                  subst (λ x. Live heap x live.0.0) (ground arith) live.0.1,
                  e,
                  found n bytes table states t name q m.0 ih.0,
                ),
              )
              | inr q ↦ rw q (λ r. ih.0 r ∙ get-insert n name bytes table ∙ rw q refl, ih.1)
            ]
      ]
