-- ===== src/Network/Resources/Dead.antt =====
-- Whom resource_manager.rs takes for dead.
use Prim.Native.String.{String}
use flume_rs.Base.{
  ℕ, ◌-◌, ◌≡◌, ◌≢◌, ◌<◌, ◌↔◌, ◌⊎◌, refl, inl, inr, [], ◌∷◌, none, some, true, false, All, In, arith,
  Option-cases,
}
use flume_rs.Base.Keys.{string_eq}
use flume_rs.Base.HashMap.{
  HashMap, get, insert, remove, IsMap, get-insert_self, insert-IsMap, remove-IsMap,
}
use flume_rs.Network.Resources.{
  TaskManagerInfo, ResourceManager, RegisterRequest, HeartbeatRequest, info_of, register, heartbeat,
  late_ids, detect_dead, remove_dead, update_slot_usage,
}

-- Every entry stands under its own id, once.
abbrev Named : HashMap String TaskManagerInfo → Type 0
Named m = All (λ e. e.1.id ≡ e.0) m

abbrev pub IsValid : ResourceManager → Type 0
IsValid rm = IsMap rm.task_managers × Named rm.task_managers

Named-insert :
    (k : String) (v : TaskManagerInfo) (m : HashMap String TaskManagerInfo)
    → Named m
    → v.id ≡ k
    → Named (insert k v m)
unfolding insert
Named-insert k v [] h e = (e, tt)
Named-insert k v ((j, w) ∷ m) h e =
    ground (arith, string_eq.equals_iff j k, Named-insert k v m h.1 e)

name_of_entry :
    (k : String) (v : TaskManagerInfo) (m : HashMap String TaskManagerInfo)
    → Named m
    → get k m ≡ some v
    → v.id ≡ k
unfolding get
name_of_entry k v [] h e = cc
name_of_entry k v ((j, w) ∷ m) h e =
    ground (arith, string_eq.equals_iff j k, name_of_entry k v m h.1)

late_absent :
    (now timeout : ℕ) (k : String) (m : HashMap String TaskManagerInfo)
    → Named m
    → In k (late_ids now timeout m)
    → get k m ≢ none
unfolding get
late_absent now timeout k [] h i = absurd i
late_absent now timeout k ((j, w) ∷ m) h i =
    ground (arith, string_eq.equals_iff j k, late_absent now timeout k m h.1)

late_lem :
    (now timeout : ℕ) (k : String) (v : TaskManagerInfo) (m : HashMap String TaskManagerInfo)
    → IsMap m
    → Named m
    → get k m ≡ some v
    → In k (late_ids now timeout m) ↔ (timeout < now - v.last_heartbeat)
unfolding get
late_lem now timeout k v [] u h e = cc
late_lem now timeout k v ((j, w) ∷ m) u h e = ground (
  arith,
  string_eq.equals_iff j k,
  late_lem now timeout k v m u.1 h.1,
  late_absent now timeout k m h.1,
)

Named-remove : (k : String) (m : HashMap String TaskManagerInfo) → Named m → Named (remove k m)
unfolding remove
Named-remove k [] h = tt
Named-remove k ((j, w) ∷ m) h = ground (arith, Named-remove k m h.1)

insert-IsValid :
    (k : String) (v : TaskManagerInfo) (rm : ResourceManager)
    → IsValid rm
    → v.id ≡ k
    → IsValid (record rm { task_managers = insert k v rm.task_managers })
insert-IsValid k v rm h e =
    (insert-IsMap k v rm.task_managers h.0, Named-insert k v rm.task_managers h.1 e)

-- What an entry that has just been stored does to the search for the dead.
stored_lem :
    (now : ℕ) (k : String) (v : TaskManagerInfo) (rm : ResourceManager)
    → IsValid rm
    → v.id ≡ k
    → In k (detect_dead now (record rm { task_managers = insert k v rm.task_managers }))
      ↔ (rm.heartbeat_timeout < now - v.last_heartbeat)
stored_lem now k v rm h e =
    let k' = insert-IsValid k v rm h e in
    late_lem now rm.heartbeat_timeout k v (insert k v rm.task_managers) k'.0 k'.1
      (get-insert_self k v rm.task_managers)

-- A heartbeat at the instant `t` keeps a manager valid: each task manager stands under its own id,
-- once. If the heartbeat is accepted, then the search at any instant `now` reports its sender as dead
-- exactly if more than the timeout has passed since `t`. If it is refused, then the sender is
-- unknown, nothing changes, and the search does not report it.
pub heartbeat_lem :
    (t now : ℕ) (req : HeartbeatRequest) (rm : ResourceManager)
    → IsValid rm
    → let id = req.task_manager_id in
      let r = heartbeat t req rm in
      IsValid r.1
      × (((r.0 ≡ true) × (In id (detect_dead now r.1) ↔ (rm.heartbeat_timeout < now - t)))
          ⊎ ((r.0 ≡ false)
              × (r.1 ≡ rm)
              × (get id rm.task_managers ≡ none)
              × ¬ In id (detect_dead now rm)))
heartbeat_lem t now req rm h = elim (Option-cases (get req.task_manager_id rm.task_managers)) [
  | inl e ↦
      rw (e, heartbeat)
        (
          h,
          inr (
            refl,
            refl,
            refl,
            λ i. late_absent now rm.heartbeat_timeout req.task_manager_id rm.task_managers h.1 i e,
          ),
        )
  | inr (info, e) ↦
      let v = record info { last_heartbeat = t; slots_in_use = req.slots_in_use } in
      let n = name_of_entry req.task_manager_id info rm.task_managers h.1 e in
      rw (e, heartbeat)
        (
          insert-IsValid req.task_manager_id v rm h n,
          inl (refl, stored_lem now req.task_manager_id v rm h n),
        )
]

-- Registration, removal and an update of the slot usage keep a manager valid. At any instant `now`,
-- a task manager that registered at `t` is reported as dead exactly if more than the timeout has passed.
pub registers_lem :
    (t now n : ℕ) (req : RegisterRequest) (tm_id : String) (rm : ResourceManager)
    → IsValid rm
    → IsValid (register t req rm).1
      × IsValid (remove_dead tm_id rm).1
      × IsValid (update_slot_usage tm_id n rm)
      × (In req.task_manager_id (detect_dead now (register t req rm).1)
          ↔ (rm.heartbeat_timeout < now - t))
registers_lem t now n req tm_id rm h = (
  insert-IsValid req.task_manager_id (info_of t req) rm h refl,
  (remove-IsMap tm_id rm.task_managers h.0, Named-remove tm_id rm.task_managers h.1),
  elim (Option-cases (get tm_id rm.task_managers)) [
    | inl e ↦ rw (e, update_slot_usage) h
    | inr (info, e) ↦
        rw (e, update_slot_usage)
          (insert-IsValid tm_id (record info { slots_in_use = n }) rm h
            (name_of_entry tm_id info rm.task_managers h.1 e))
  ],
  stored_lem now req.task_manager_id (info_of t req) rm h refl,
)
