-- ===== src/Network/Slots/Job.antt =====
-- The cancellation of all subtasks of a job, in slot_manager.rs.
use Prim.Native.String.{String}
use mathlib.Core.Option
use flume_rs.Base.{
  ℕ, ◌+◌, ◌≡◌, refl, ap, ◌∙◌, List, [], ◌∷◌, Option, none, some, Bool, true, false, ◌&&◌, ◌||◌,
  ◌==◌, is_some, All, filter, length, get_elem?, if◌then◌else◌, arith, Option-cases, Bool-cases,
  inl, inr,
}
use flume_rs.Base.Keys.{string_eq}
use flume_rs.Base.HashMap.{HashMap, keys, get, remove, IsMap, get-remove}
use flume_rs.Core.Result.{ok, for_each}
use flume_rs.Network.Slots.{
  SlotState, free, occupied, SlotManager, has_job, owned, to_remove, cancel_all, cancel_job,
}
use flume_rs.Network.Slots.Valid.{
  IsValid, runs, count_free, cancel_found, vacated, vacated-IsValid, count_free-vacated,
}

abbrev pub slot_of : SlotManager → String → Option SlotState
slot_of m s = slot_at (get s m.subtask_to_slot)
  where
    slot_at : Option ℕ → Option SlotState
    slot_at none = none
    slot_at (some i) = get_elem? m.slots i

abbrev pub in_job : String → Option SlotState → Bool
in_job job none = false
in_job job (some free) = false
in_job job (some (occupied j subtask)) = j == job

-- The slot of the subtask is occupied by the job.
abbrev pub of_job : String → SlotManager → String → Bool
of_job job m s = in_job job (slot_of m s)

abbrev pub has : String → List String → Bool
has t [] = false
has t (s ∷ ss) = s == t || has t ss

abbrev NoRepeats : List String → Type 0
NoRepeats [] = Unit
NoRepeats (s ∷ ss) = (has s ss ≡ false) × NoRepeats ss

has-keys : (t : String) (m : HashMap String ℕ) → has t (keys m) ≡ is_some (get t m)
unfolding get
has-keys t [] = refl
has-keys t ((s, i) ∷ m) = ground (arith, has-keys t m)

keys-NoRepeats : (m : HashMap String ℕ) → IsMap m → NoRepeats (keys m)
unfolding get
keys-NoRepeats [] h = tt
keys-NoRepeats ((s, i) ∷ m) h = (has-keys s m ∙ ap is_some h.0, keys-NoRepeats m h.1)

has-filter :
    (p : String → Bool) (t : String) (ss : List String) → has t (filter p ss) ≡ (has t ss && p t)
has-filter p t [] = refl
has-filter p t (s ∷ ss) = ground (arith, has-filter p t ss, string_eq.equals_iff s t)

filter-NoRepeats : (p : String → Bool) (ss : List String) → NoRepeats ss → NoRepeats (filter p ss)
filter-NoRepeats p [] h = tt
filter-NoRepeats p (s ∷ ss) h = ground (arith, has-filter p s ss, filter-NoRepeats p ss h.1)

-- In a valid manager no slot is out of range.
owned-some :
    (job : String) (m : SlotManager) (s : String)
    → IsValid m
    → owned job m (get s m.subtask_to_slot) ≡ some (of_job job m s)
owned-some job m s v = elim (Option-cases (get s m.subtask_to_slot)) [
  | inl e ↦ rw e refl
  | inr (i, e) ↦ rw e (in_range (get_elem? m.slots i) (v.placed s i e))
]
  where
    in_range :
        (o : Option SlotState) → runs s o ≡ true → Option.map (has_job job) o ≡ some (in_job job o)
    in_range none h = cc
    in_range (some free) h = refl
    in_range (some (occupied j subtask)) h = refl

to_remove-filter :
    (job : String) (m : SlotManager) (ss : List String)
    → IsValid m
    → to_remove job m ss ≡ some (filter (of_job job m) ss)
unfolding to_remove
to_remove-filter job m [] v = refl
to_remove-filter job m (s ∷ ss) v =
    ground (arith, owned-some job m s v, to_remove-filter job m ss v)

still_deployed :
    (s : String) (m : HashMap String ℕ) (ss : List String)
    → IsMap m
    → has s ss ≡ false
    → All (λ u. is_some (get u m) ≡ true) ss
    → All (λ u. is_some (get u (remove s m)) ≡ true) ss
still_deployed s m [] v d a = tt
still_deployed s m (u ∷ ss) v d a = ground (
  arith,
  get-remove s u m v,
  string_eq.equals_iff s u,
  string_eq.equals_iff u s,
  still_deployed s m ss v,
)

-- What is left when a list of deployed subtasks is cancelled.
cancel_all_lem :
    (ss : List String) (m : SlotManager)
    → IsValid m
    → NoRepeats ss
    → All (λ s. is_some (get s m.subtask_to_slot) ≡ true) ss
    → (m' : SlotManager) × (cancel_all ss m ≡ (ok tt, m'))
      × IsValid m'
      × (count_free m'.slots ≡ count_free m.slots + length ss)
      × ((t : String)
          → get t m'.subtask_to_slot ≡ (if has t ss then none else get t m.subtask_to_slot))
unfolding for_each
cancel_all_lem [] m v d a = (m, refl, v, omega arith, λ t. refl)
cancel_all_lem (s ∷ ss) m v d a = elim (Option-cases (get s m.subtask_to_slot)) [
  | inl e ↦ ground arith
  | inr (i, e) ↦
      let r = v.placed s i e in
      let rest =
        cancel_all_lem ss (vacated s i m) (vacated-IsValid s m i v e) d.1
          (still_deployed s m.subtask_to_slot ss v.is_map d.0 a.1) in
      (
        rest.0,
        rw (cancel_found s m i r e) rest.1,
        rest.2,
        omega (arith, rest.3, count_free-vacated s m i r),
        λ t. ground (arith, rest.4 t, get-remove s t m.subtask_to_slot v.is_map),
      )
]

deployed-filter :
    (job : String) (m : SlotManager) (ss : List String)
    → All (λ s. is_some (get s m.subtask_to_slot) ≡ true) (filter (of_job job m) ss)
deployed-filter job m [] = tt
deployed-filter job m (s ∷ ss) = elim (Bool-cases (of_job job m s)) [
  | inl e ↦ rw e (deployed s e, deployed-filter job m ss)
  | inr e ↦ rw e (deployed-filter job m ss)
]
  where
    deployed : (s : String) → of_job job m s ≡ true → is_some (get s m.subtask_to_slot) ≡ true
    deployed s e = elim (Option-cases (get s m.subtask_to_slot)) [
      | inl n ↦ ground arith
      | inr (i, n) ↦ rw n refl
    ]

-- In a valid manager, cancelling a job never panics and keeps the manager valid. Exactly the
-- subtasks that run in a slot of the job are no longer deployed, every other one is where it was,
-- and the number that is returned is that of the slots that have become free.
pub cancel_job_lem :
    (job : String) (m : SlotManager)
    → IsValid m
    → let r = cancel_job job m in
      IsValid r.1
      × ((n : ℕ) × (r.0 ≡ ok n) × (count_free r.1.slots ≡ count_free m.slots + n))
      × ((t : String)
          → get t r.1.subtask_to_slot ≡ (if of_job job m t then none else get t m.subtask_to_slot))
unfolding cancel_job
cancel_job_lem job m v =
    let ss = filter (of_job job m) (keys m.subtask_to_slot) in
    let c =
      cancel_all_lem ss m v
        (filter-NoRepeats (of_job job m) (keys m.subtask_to_slot)
          (keys-NoRepeats m.subtask_to_slot v.is_map))
        (deployed-filter job m (keys m.subtask_to_slot)) in
    rw (to_remove-filter job m (keys m.subtask_to_slot) v, c.1)
      (
        c.2,
        (length ss, refl, c.3),
        λ t. ground (
          arith,
          c.4 t,
          has-filter (of_job job m) t (keys m.subtask_to_slot),
          has-keys t m.subtask_to_slot,
          Option-cases (get t m.subtask_to_slot),
        ),
      )
