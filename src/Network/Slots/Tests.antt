-- ===== src/Network/Slots/Tests.antt =====
-- The theorems on slot_manager.rs at a manager of two slots.
use Prim.Native.String.{String}
use flume_rs.Base.{
  ℕ, ◌+◌, ◌≡◌, ◌⊎◌, refl, [], ◌∷◌, none, some, true, false, ◌==◌, get_elem?, if◌then◌else◌,
}
use flume_rs.Base.Keys.{string_eq}
use flume_rs.Base.HashMap.{get, insert}
use flume_rs.Core.Result.{ok}
use flume_rs.Network.Slots.{
  SlotManager, free, occupied, deploy, cancel, cancel_job, is_deployed, new,
}
use flume_rs.Network.Slots.Valid.{IsValid, count_free, runs, new-IsValid}
use flume_rs.Network.Slots.Ops.{deploy_lem, cancel_lem}
use flume_rs.Network.Slots.Job.{of_job, cancel_job_lem}
use flume_rs.Network.Slots.Leak.{redeploy_leaks}

abbrev two_slots : SlotManager
two_slots = record { slots = free ∷ free ∷ []; subtask_to_slot = [] }

abbrev one_used : SlotManager
one_used = record { slots = occupied "job" "map" ∷ free ∷ []; subtask_to_slot = ("map", 0) ∷ [] }

two_slots-IsValid : IsValid two_slots
unfolding new
two_slots-IsValid = new-IsValid 2

one_used-IsValid : IsValid one_used
unfolding get deploy insert
one_used-IsValid = (deploy_lem "job" "map" two_slots two_slots-IsValid refl).0

deploy_lem_example :
    let r = deploy "job" "map" two_slots in
    IsValid r.1
    × (((r.0 ≡ none) × (count_free two_slots.slots ≡ 0) × (r.1 ≡ two_slots))
        ⊎ ((i : ℕ) × (r.0 ≡ some i)
            × (get_elem? two_slots.slots i ≡ some free)
            × (get "map" r.1.subtask_to_slot ≡ some i)
            × (get_elem? r.1.slots i ≡ some (occupied "job" "map"))))
unfolding get
deploy_lem_example = deploy_lem "job" "map" two_slots two_slots-IsValid refl

cancel_lem_example :
    let r = cancel "map" one_used in
    IsValid r.1
    × (r.0 ≡ ok (is_deployed "map" one_used))
    × ((t : String)
        → get t r.1.subtask_to_slot ≡ (if "map" == t then none else get t one_used.subtask_to_slot))
    × (count_free r.1.slots
        ≡ count_free one_used.slots + (if is_deployed "map" one_used then 1 else 0))
cancel_lem_example = cancel_lem "map" one_used one_used-IsValid

redeploy_leaks_example :
    let r = cancel "map" (deploy "job" "map" one_used).1 in
    (r.0 ≡ ok true)
    × (is_deployed "map" r.1 ≡ false)
    × ((cancel "map" r.1).0 ≡ ok false)
    × (runs "map" (get_elem? r.1.slots 0) ≡ true)
unfolding get
redeploy_leaks_example = redeploy_leaks "job" "map" one_used 0 1 one_used-IsValid refl refl

cancel_job_lem_example :
    let r = cancel_job "job" one_used in
    IsValid r.1
    × ((n : ℕ) × (r.0 ≡ ok n) × (count_free r.1.slots ≡ count_free one_used.slots + n))
    × ((t : String)
        → get t r.1.subtask_to_slot
          ≡ (if of_job "job" one_used t then none else get t one_used.subtask_to_slot))
cancel_job_lem_example = cancel_job_lem "job" one_used one_used-IsValid
