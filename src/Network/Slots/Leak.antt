-- ===== src/Network/Slots/Leak.antt =====
-- A subtask that is deployed twice, in slot_manager.rs.
use Prim.Native.String.{String}
use flume_rs.Base.{
  ℕ, ◌≡◌, refl, some, none, true, false, get_elem?, set, length, ◌<◌, get_elem?-set_self,
  get_elem?-set_ne, arith,
}
use flume_rs.Base.Keys.{string_eq}
use flume_rs.Base.HashMap.{get, remove, get-insert_self, get-remove, insert-IsMap}
use flume_rs.Core.Result.{ok}
use flume_rs.Network.Slots.{
  free, occupied, SlotManager, deploy, deploy_at, cancel, is_deployed, position_free,
}
use flume_rs.Network.Slots.Valid.{
  IsValid, runs, position_free-some, cancel_found, cancel_missing, vacated,
}

-- When a subtask that runs in slot `i` is deployed again and another slot is free, cancelling it
-- succeeds; the manager then says that the subtask is not deployed, a second cancellation finds
-- nothing, and slot `i` stays occupied by the subtask.
pub redeploy_leaks :
    (job s : String) (m : SlotManager) (i k : ℕ)
    → IsValid m
    → get s m.subtask_to_slot ≡ some i
    → position_free m.slots ≡ some k
    → let r = cancel s (deploy job s m).1 in
      (r.0 ≡ ok true)
      × (is_deployed s r.1 ≡ false)
      × ((cancel s r.1).0 ≡ ok false)
      × (runs s (get_elem? r.1.slots i) ≡ true)
unfolding deploy
redeploy_leaks job s m i k v e p =
    rw (p, cancel_found s twice k second found)
      (refl, rw gone refl, rw (cancel_missing s (vacated s k twice) gone) refl, stays)
  where
    twice : SlotManager
    twice = (deploy_at job s m (some k)).1

    open_at : (get_elem? m.slots k ≡ some free) × (k < length m.slots)
    open_at = position_free-some m.slots k p

    found : get s twice.subtask_to_slot ≡ some k
    found = get-insert_self s k m.subtask_to_slot

    second : runs s (get_elem? twice.slots k) ≡ true
    second = ground (
      arith,
      get-insert_self s k m.subtask_to_slot,
      open_at,
      get_elem?-set_self m.slots k (occupied job s),
      string_eq.equals_iff s s,
    )

    gone : get s (remove s twice.subtask_to_slot) ≡ none
    gone = ground (
      arith,
      get-remove s s twice.subtask_to_slot (insert-IsMap s k m.subtask_to_slot v.is_map),
      string_eq.equals_iff s s,
    )

    stays : runs s (get_elem? (set twice.slots k free) i) ≡ true
    stays = ground (
      arith,
      v.placed s i e,
      open_at,
      get_elem?-set_ne m.slots k i (occupied job s),
      get_elem?-set_ne twice.slots k i free,
    )
