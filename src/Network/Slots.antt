-- ===== src/Network/Slots.antt =====
-- crates/flume-network/src/slot_manager.rs: the slots of a task manager, and the index from a
-- subtask to its slot. A job and a subtask are named by strings.
pub mod Valid
pub mod Ops
pub mod Leak
pub mod Job
mod Tests
use Prim.Native.String.{String}
use mathlib.Core.Option
use flume_rs.Base.{
  ℕ, zero, suc, List, [], ◌∷◌, Option, none, some, Bool, true, false, ◌==◌, length, get_elem?, set,
  replicate, sub64, if◌then◌else◌,
}
use flume_rs.Base.Keys.{string_eq}
use flume_rs.Base.HashMap.{HashMap, keys, get, insert, remove, contains_key}
use flume_rs.Core.Result.{Run, ok, panic, for_each, return, ◌>>=◌, ◌>>◌}

pub data SlotState : Type 0 where
  free : SlotState
  -- The job, and the subtask.
  occupied : String → String → SlotState

pub record SlotManager : Type 0 where
  pub slots : List SlotState
  pub subtask_to_slot : HashMap String ℕ

unfoldable pub new : ℕ → SlotManager
new num_slots = record { slots = replicate num_slots free; subtask_to_slot = [] }

abbrev pub total_slots : SlotManager → ℕ
total_slots m = length m.slots

abbrev pub slots_in_use : SlotManager → ℕ
slots_in_use m = length m.subtask_to_slot

abbrev pub slots_available : SlotManager → ℕ
slots_available m = sub64 (total_slots m) (slots_in_use m)

abbrev pub is_free : SlotState → Bool
is_free free = true
is_free (occupied job subtask) = false

-- `iter().position(|s| *s == SlotState::Free)`
abbrev pub position_free : List SlotState → Option ℕ
position_free [] = none
position_free (s ∷ ss) = if is_free s then some 0 else Option.map suc (position_free ss)

abbrev pub deploy_at : String → String → SlotManager → Option ℕ → Option ℕ × SlotManager
deploy_at job subtask m none = (none, m)
deploy_at job subtask m (some slot_idx) = (
  some slot_idx,
  record {
    slots = set m.slots slot_idx (occupied job subtask);
    subtask_to_slot = insert subtask slot_idx m.subtask_to_slot;
  },
)

unfoldable pub deploy : String → String → SlotManager → Option ℕ × SlotManager
deploy job subtask m = deploy_at job subtask m (position_free m.slots)

-- The write to a slot panics out of range; the entry of the index is gone by then.
abbrev pub free_slot : ℕ → Run SlotManager Bool
free_slot slot_idx m = elim (get_elem? m.slots slot_idx) [
  | none ↦ (panic, m)
  | some old ↦ (ok true, record m { slots = set m.slots slot_idx free })
]

abbrev pub cancel_at : String → Option ℕ → Run SlotManager Bool
cancel_at subtask none m = (ok false, m)
cancel_at subtask (some slot_idx) m =
    free_slot slot_idx (record m { subtask_to_slot = remove subtask m.subtask_to_slot })

unfoldable pub cancel : String → Run SlotManager Bool
cancel subtask m = cancel_at subtask (get subtask m.subtask_to_slot) m

abbrev pub has_job : String → SlotState → Bool
has_job job free = false
has_job job (occupied jid subtask) = jid == job

-- Whether a subtask is one of the job; `none` is a panic, for a slot out of range.
abbrev pub owned : String → SlotManager → Option ℕ → Option Bool
owned job m none = some false
owned job m (some slot_idx) = Option.map (has_job job) (get_elem? m.slots slot_idx)

abbrev pub add_if : String → Option Bool → Option (List String) → Option (List String)
add_if s none rest = none
add_if s (some b) none = none
add_if s (some b) (some ss) = some (if b then s ∷ ss else ss)

unfoldable pub to_remove : String → SlotManager → List String → Option (List String)
to_remove job m [] = some []
to_remove job m (s ∷ ss) = add_if s (owned job m (get s m.subtask_to_slot)) (to_remove job m ss)

abbrev pub cancel_all : List String → Run SlotManager (Unit {0})
cancel_all = for_each (λ s. cancel s >>= λ found. return tt)

abbrev pub cancel_listed : Option (List String) → Run SlotManager ℕ
cancel_listed none m = (panic, m)
cancel_listed (some ss) m = (cancel_all ss >>= λ _. return (length ss)) m

unfoldable pub cancel_job : String → Run SlotManager ℕ
cancel_job job m = cancel_listed (to_remove job m (keys m.subtask_to_slot)) m

abbrev pub is_deployed : String → SlotManager → Bool
is_deployed subtask m = contains_key subtask m.subtask_to_slot

abbrev pub get_slot : SlotManager → ℕ → Option SlotState
get_slot m i = get_elem? m.slots i

abbrev pub deployed_subtasks : SlotManager → List String
deployed_subtasks m = keys m.subtask_to_slot
