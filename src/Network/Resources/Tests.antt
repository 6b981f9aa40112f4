-- ===== src/Network/Resources/Tests.antt =====
-- Runs of the model of resource_manager.rs.
use flume_rs.Base.{◌-◌, ◌≡◌, ◌<◌, ◌↔◌, ◌⊎◌, refl, [], ◌∷◌, none, true, false, In}
use flume_rs.Base.Keys.{string_eq}
use flume_rs.Base.HashMap.{get, insert}
use flume_rs.Network.Resources.{
  ResourceManager, RegisterRequest, HeartbeatRequest, new_resources, register, heartbeat,
  detect_dead,
}
use flume_rs.Network.Resources.Dead.{IsValid, heartbeat_lem, registers_lem}

abbrev request : RegisterRequest
request = record { task_manager_id = "tm-1"; address = "here"; num_slots = 4; registered_jobs = [] }

abbrev beat : HeartbeatRequest
beat = record { task_manager_id = "tm-1"; slots_available = 2; slots_in_use = 2 }

abbrev one_manager : ResourceManager
one_manager = (register 10 request (new_resources 30)).1

one_manager-IsValid : IsValid one_manager
one_manager-IsValid = (registers_lem 10 0 0 request "tm-1" (new_resources 30) (tt, tt)).0

-- Late by more than the timeout, and not after a heartbeat.
late : detect_dead 41 one_manager ≡ "tm-1" ∷ []
unfolding insert
late = refl

not_late : detect_dead 41 (heartbeat 20 beat one_manager).1 ≡ []
unfolding get insert
not_late = refl

heartbeat_lem_example :
    let r = heartbeat 20 beat one_manager in
    IsValid r.1
    × (((r.0 ≡ true) × (In "tm-1" (detect_dead 60 r.1) ↔ (30 < 60 - 20)))
        ⊎ ((r.0 ≡ false)
            × (r.1 ≡ one_manager)
            × (get "tm-1" one_manager.task_managers ≡ none)
            × ¬ In "tm-1" (detect_dead 60 one_manager)))
heartbeat_lem_example = heartbeat_lem 20 60 beat one_manager one_manager-IsValid
