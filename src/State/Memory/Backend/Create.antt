-- ===== src/State/Memory/Backend/Create.antt =====
-- The operations of crates/flume-state/src/memory.rs that create and change states.
use Prim.Native.String.{String}
use flume_rs.Base.{ℕ, ◌≡◌, ◌≢◌, refl, ◌∙◌, [], ◌∷◌, ◌++◌, none, some, set, arith}
use flume_rs.Base.Keys.{Eq, string_eq, beq_refl}
use flume_rs.Base.HashMap.{get, insert, remove}
use flume_rs.Core.Result.{Run, ok}
use flume_rs.State.Memory.{Heap, Content, value, list, entries}
use flume_rs.State.Memory.ValueState
use flume_rs.State.Memory.ListState
use flume_rs.State.Memory.MapState
use flume_rs.State.Memory.Backend.{
  ErasedState, value_state, list_state, map_state, MemoryStateBackend,
}
use flume_rs.State.Memory.Backend.Live.{address, Fits, value_fits, list_fits, map_fits, fresh, Live}
use flume_rs.State.Memory.Backend.Restore.{Live-self, Live-other, set-AllLive}
use flume_rs.State.Memory.Backend.RoundTrip.{IsValid}

-- The calls on a handle that change its state, at the address of the handle.
pub data Op (K V : Type 0) : Type 0 where
  set_value : ℕ → V → Op K V
  clear_value : ℕ → Op K V
  add_to_list : ℕ → V → Op K V
  clear_list : ℕ → Op K V
  put_entry : ℕ → K → V → Op K V
  remove_entry : ℕ → K → Op K V
  clear_map : ℕ → Op K V

module _ {K V : Type 0} where
  abbrev pub target : Op K V → ErasedState
  target (set_value a v) = value_state a
  target (clear_value a) = value_state a
  target (add_to_list a v) = list_state a
  target (clear_list a) = list_state a
  target (put_entry a k v) = map_state a
  target (remove_entry a k) = map_state a
  target (clear_map a) = map_state a

module _ {K V : Type 0} ⦃e : Eq K⦄ where
  abbrev pub apply : Op K V → Run (Heap K V) (Unit {0})
  apply (set_value a v) = ValueState.set (record { inner = a }) v
  apply (clear_value a) = ValueState.clear (record { inner = a })
  apply (add_to_list a v) = ListState.add (record { inner = a }) v
  apply (clear_list a) = ListState.clear (record { inner = a })
  apply (put_entry a k v) = MapState.put (record { inner = a }) k v
  apply (remove_entry a k) = MapState.remove (record { inner = a }) k
  apply (clear_map a) = MapState.clear (record { inner = a })

  -- The content that the call means to leave.
  abbrev pub effect : Op K V → Content K V → Content K V
  effect (set_value a v) c = value (some v)
  effect (clear_value a) c = value none
  effect (add_to_list a v) (list vs) = list (vs ++ v ∷ [])
  effect (add_to_list a v) c = c
  effect (clear_list a) c = list []
  effect (put_entry a k v) (entries m) = entries (insert k v m)
  effect (put_entry a k v) c = c
  effect (remove_entry a k) (entries m) = entries (remove k m)
  effect (remove_entry a k) c = c
  effect (clear_map a) c = entries []

  apply-Live :
      (heap : Heap K V) (op : Op K V) (c : Content K V)
      → Live heap (target op) c
      → Fits (target op) (effect op c)
        × (apply op heap ≡ (ok tt, set heap (address (target op)) (fresh (effect op c))))
  unfolding ValueState.set ValueState.clear ListState.add ListState.clear MapState.put
      MapState.remove MapState.clear
  apply-Live heap (set_value a v) _ (value_fits _ w, h) = (value_fits a (some v), rw h refl)
  apply-Live heap (clear_value a) _ (value_fits _ w, h) = (value_fits a none, rw h refl)
  apply-Live heap (add_to_list a v) _ (list_fits _ vs, h) = (list_fits a (vs ++ v ∷ []), rw h refl)
  apply-Live heap (clear_list a) _ (list_fits _ vs, h) = (list_fits a [], rw h refl)
  apply-Live heap (put_entry a k v) _ (map_fits _ m, h) = (map_fits a (insert k v m), rw h refl)
  apply-Live heap (remove_entry a k) _ (map_fits _ m, h) = (map_fits a (remove k m), rw h refl)
  apply-Live heap (clear_map a) _ (map_fits _ m, h) = (map_fits a [], rw h refl)

  -- A call on the handle of a state of a valid backend succeeds and leaves in the state what it
  -- means to, whatever type of state it is; every other state of the backend keeps what it held,
  -- and the backend stays valid.
  pub apply_lem :
      (b : MemoryStateBackend) (heap : Heap K V) (op : Op K V) (name : String) (c : Content K V)
      → IsValid b heap
      → get name b.states ≡ some (target op)
      → Live heap (target op) c
      → let (r, heap') = apply op heap in
        (r ≡ ok tt)
        × IsValid b heap'
        × Live heap' (target op) (effect op c)
        × ((m : String) (s : ErasedState) (d : Content K V)
            → get m b.states ≡ some s
            → m ≢ name
            → Live heap s d
            → Live heap' s d)
  apply_lem b heap op name c valid h live =
      let (fits, run) = apply-Live heap op c live in
      let s = target op in
      rw run (
        refl,
        record {
          is_map = valid.is_map;
          live = set-AllLive b heap name s (effect op c) valid.apart valid.live h fits;
          apart = valid.apart;
        },
        Live-self b heap name name s s c (effect op c) h h (beq_refl name) live fits,
        λ m t d k n held. (
          held.0,
          Live-other b heap name m s t (effect op c) valid.apart h k
                (ground (arith, string_eq.equals_iff name m))
              ∙ held.1,
        ),
      )
