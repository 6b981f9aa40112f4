-- ===== src/Network/Slots/Ops.antt =====
-- What deploying and cancelling do to a valid manager of slot_manager.rs.
use Prim.Native.String.{String}
use flume_rs.Base.{
  ℕ, ◌+◌, ◌^◌, ◌<◌, ◌≡◌, ◌⊎◌, refl, none, some, ◌==◌, length, get_elem?, get_elem?-set_self,
  if◌then◌else◌, arith, Option-cases, inl, inr,
}
use flume_rs.Base.Keys.{string_eq}
use flume_rs.Base.HashMap.{get, remove, get-insert_self, get-remove}
use flume_rs.Core.Result.{ok}
use flume_rs.Network.Slots.{
  free, occupied, SlotManager, position_free, deploy, cancel, is_deployed, slots_available,
}
use flume_rs.Network.Slots.Valid.{
  IsValid, count_free, deploy_at-IsValid, position_free-some, position_free-none, cancel_found,
  cancel_missing, vacated-IsValid, count_free-vacated,
}

-- In a valid manager, deploying a subtask that is not deployed keeps the manager valid; it takes a
-- free slot, and fails exactly if no slot is free, changing nothing then.
pub deploy_lem :
    (job s : String) (m : SlotManager)
    → IsValid m
    → get s m.subtask_to_slot ≡ none
    → let r = deploy job s m in
      IsValid r.1
      × (((r.0 ≡ none) × (count_free m.slots ≡ 0) × (r.1 ≡ m))
          ⊎ ((i : ℕ) × (r.0 ≡ some i)
              × (get_elem? m.slots i ≡ some free)
              × (get s r.1.subtask_to_slot ≡ some i)
              × (get_elem? r.1.slots i ≡ some (occupied job s))))
unfolding deploy
deploy_lem job s m v new_name = elim (Option-cases (position_free m.slots)) [
  | inl e ↦ rw e (v, inl (refl, position_free-none m.slots e, refl))
  | inr (i, e) ↦
      let p = position_free-some m.slots i e in
      rw e (
        deploy_at-IsValid job s m i v new_name p.0 p.1,
        inr (
          i,
          refl,
          p.0,
          get-insert_self s i m.subtask_to_slot,
          get_elem?-set_self m.slots i (occupied job s) p.1,
        ),
      )
]

-- Cancelling keeps a valid manager valid and never panics. It returns whether the subtask was
-- deployed, and afterwards the subtask is not deployed and every other one is where it was; if it
-- was deployed, there is one free slot more.
pub cancel_lem :
    (s : String) (m : SlotManager)
    → IsValid m
    → let r = cancel s m in
      IsValid r.1
      × (r.0 ≡ ok (is_deployed s m))
      × ((t : String)
          → get t r.1.subtask_to_slot ≡ (if s == t then none else get t m.subtask_to_slot))
      × (count_free r.1.slots ≡ count_free m.slots + (if is_deployed s m then 1 else 0))
cancel_lem s m v = elim (Option-cases (get s m.subtask_to_slot)) [
  | inl e ↦
      rw (cancel_missing s m e, e)
        (v, refl, (λ t. ground (arith, string_eq.equals_iff s t)), omega arith)
  | inr (i, e) ↦
      rw (cancel_found s m i (v.placed s i e) e, e)
        (vacated-IsValid s m i v e, refl, get-remove_at, count_free-vacated s m i (v.placed s i e))
]
  where
    get-remove_at :
        (t : String)
        → get t (remove s m.subtask_to_slot) ≡ (if s == t then none else get t m.subtask_to_slot)
    get-remove_at t = get-remove s t m.subtask_to_slot v.is_map

-- In a valid manager whose slots are fewer than 2 ^ 64, the number of available slots is that of the
-- free slots.
pub slots_available_lem :
    (m : SlotManager) → IsValid m → length m.slots < 2 ^ 64 → slots_available m ≡ count_free m.slots
slots_available_lem m v h = omega (arith, v.counted)
