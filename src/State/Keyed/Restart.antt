-- ===== src/State/Keyed/Restart.antt =====
-- A snapshot of crates/flume-state/src/keyed.rs or memory.rs, restored into a new backend.
use flume_rs.Base.{◌≡◌, refl, List, [], ◌∷◌}
use flume_rs.Base.Keys.{Eq, string_eq, nat_eq, list_eq}
use flume_rs.Base.HashMap.{get}
use flume_rs.Core.Record.{Bytes}
use flume_rs.Core.Result.{Run, ok, for_each}
use flume_rs.State.Codec.{Bitcode, IsFaithful}
use flume_rs.State.Memory.{Heap}
use flume_rs.State.Memory.Backend.{MemoryStateBackend, new_backend}
use flume_rs.State.Memory.Backend
use flume_rs.State.Memory.Backend.RoundTrip.{serialized_ok}
use flume_rs.State.Keyed.{KeyedStateBackend, new_keyed, snapshot_all, snapshot, restore}

-- A loop whose body does nothing.
idle :
    {S A : Type 0} (body : A → Run S (Unit {0})) (xs : List A) (s : S)
    → ((x : A) (t : S) → body x t ≡ (ok tt, t))
    → for_each body xs s ≡ (ok tt, s)
unfolding for_each
idle body [] s h = refl
idle body (x ∷ xs) s h = rw (h x s) (idle body xs s h)

module _ {K V : Type 0} ⦃e : Eq K⦄ (bitcode : Bitcode K V) where
  -- A snapshot that a keyed backend took, restored into a new keyed backend, reports success and
  -- changes nothing: each key is passed over, since the new one has no backend for it. In the same
  -- way a snapshot of a plain backend, restored into a new one, reports success and changes nothing.
  pub new_restores_nothing :
      (k : KeyedStateBackend) (b : MemoryStateBackend) (heap later : Heap K V)
      (bytes bytes' : Bytes)
      → IsFaithful bitcode
      → (snapshot bitcode k heap).0 ≡ ok bytes
      → (Backend.snapshot bitcode b heap).0 ≡ ok bytes'
      → (restore bitcode new_keyed bytes later ≡ (ok tt, later))
        × (Backend.restore bitcode new_backend bytes' later ≡ (ok tt, later))
  unfolding snapshot restore Backend.snapshot Backend.restore get
  new_restores_nothing k b heap later bytes bytes' faithful h h' =
      let (table, r, ser) =
        serialized_ok (snapshot_all bitcode k.backends [] heap) bitcode.keyed_table.serialize bytes
          h in
      let (t, dec, _) = faithful.keyed_table table bytes ser in
      let (table', r', ser') =
        serialized_ok (Backend.snapshot_all bitcode b.states [] heap) bitcode.table.serialize bytes'
          h' in
      let (t', dec', _) = faithful.table table' bytes' ser' in
      (rw dec (idle _ t later (λ x s. refl)), rw dec' (idle _ t' later (λ x s. refl)))
