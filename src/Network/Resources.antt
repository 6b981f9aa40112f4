-- ===== src/Network/Resources.antt =====
-- crates/flume-network/src/resource_manager.rs: the task managers that have registered. An instant is
-- a number on the clock, and what `Instant::now` reads is an argument.
pub mod Dead
mod Tests
use Prim.Native.String.{String}
use flume_rs.Base.{
  ℕ, ◌+◌, ◌-◌, ◌%◌, ◌^◌, List, [], ◌∷◌, map, Option, none, some, Bool, true, false, length, ltb,
  filter,
}
use flume_rs.Base.Keys.{string_eq}
use flume_rs.Base.HashMap.{HashMap, values, get, insert, remove}
use flume_rs.Runtime.Physical.{SlotOffer}

pub record TaskManagerInfo : Type 0 where
  pub id : String
  pub address : String
  pub num_slots : ℕ
  pub slots_in_use : ℕ
  pub registered_jobs : List String
  pub last_heartbeat : ℕ

-- Words of 32 bits; a release build wraps.
abbrev pub slots_available : TaskManagerInfo → ℕ
slots_available info = (info.num_slots + 2 ^ 32 - info.slots_in_use) % 2 ^ 32

pub record ResourceManager : Type 0 where
  pub task_managers : HashMap String TaskManagerInfo
  pub heartbeat_timeout : ℕ

pub record RegisterRequest : Type 0 where
  pub task_manager_id : String
  pub address : String
  pub num_slots : ℕ
  pub registered_jobs : List String

pub record HeartbeatRequest : Type 0 where
  pub task_manager_id : String
  pub slots_available : ℕ
  pub slots_in_use : ℕ

abbrev pub new_resources : ℕ → ResourceManager
new_resources heartbeat_timeout = record {
  task_managers = [];
  heartbeat_timeout = heartbeat_timeout;
}

abbrev pub info_of : ℕ → RegisterRequest → TaskManagerInfo
info_of now req = record {
  id = req.task_manager_id;
  address = req.address;
  num_slots = req.num_slots;
  slots_in_use = 0;
  registered_jobs = req.registered_jobs;
  last_heartbeat = now;
}

abbrev pub register : ℕ → RegisterRequest → ResourceManager → Bool × ResourceManager
register now req rm = (
  true,
  record rm { task_managers = insert req.task_manager_id (info_of now req) rm.task_managers },
)

abbrev pub heartbeat : ℕ → HeartbeatRequest → ResourceManager → Bool × ResourceManager
heartbeat now req rm = elim (get req.task_manager_id rm.task_managers) [
  | none ↦ (false, rm)
  | some info ↦ (
    true,
    record rm {
      task_managers =
          insert req.task_manager_id
            (record info { last_heartbeat = now; slots_in_use = req.slots_in_use })
            rm.task_managers;
    },
  )
]

abbrev pub is_late : ℕ → ℕ → TaskManagerInfo → Bool
is_late now timeout info = ltb timeout (now - info.last_heartbeat)

abbrev pub late_ids : ℕ → ℕ → HashMap String TaskManagerInfo → List String
late_ids now timeout m = map (λ info. info.id) (filter (is_late now timeout) (values m))

abbrev pub detect_dead : ℕ → ResourceManager → List String
detect_dead now rm = late_ids now rm.heartbeat_timeout rm.task_managers

abbrev pub remove_dead : String → ResourceManager → Option TaskManagerInfo × ResourceManager
remove_dead tm_id rm =
    (get tm_id rm.task_managers, record rm { task_managers = remove tm_id rm.task_managers })

abbrev pub slot_offers : ResourceManager → List SlotOffer
slot_offers rm =
    map
      (λ info. record {
        task_manager_id = info.id;
        total_slots = info.num_slots;
        used_slots = info.slots_in_use;
      })
      (values rm.task_managers)

abbrev pub update_slot_usage : String → ℕ → ResourceManager → ResourceManager
update_slot_usage tm_id slots_in_use rm = elim (get tm_id rm.task_managers) [
  | none ↦ rm
  | some info ↦ record rm {
    task_managers = insert tm_id (record info { slots_in_use = slots_in_use }) rm.task_managers;
  }
]
