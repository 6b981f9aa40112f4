-- ===== src/Network/Slots/Valid.antt =====
-- What every operation of slot_manager.rs keeps, and what it returns.
use Prim.Native.String.{String}
use flume_rs.Base.{
  ℕ, zero, suc, ◌+◌, ◌<◌, ◌≡◌, refl, List, [], ◌∷◌, Option, none, some, Bool, true, false, ◌==◌,
  length, get_elem?, set, replicate, length-set, length-replicate, get_elem?-set_self,
  get_elem?-set_ne, if◌then◌else◌, arith, Option-cases, inl, inr,
}
use flume_rs.Base.Keys.{string_eq}
use flume_rs.Base.HashMap.{
  get, remove, IsMap, get-insert, get-remove, insert-IsMap, remove-IsMap, length-insert_new,
  length-remove,
}
use flume_rs.Core.Result.{ok}
use flume_rs.Network.Slots.{
  SlotState, free, occupied, SlotManager, is_free, position_free, deploy_at, free_slot, cancel_at,
  cancel, new,
}

abbrev pub count_free : List SlotState → ℕ
count_free [] = 0
count_free (s ∷ ss) = if is_free s then suc (count_free ss) else count_free ss

-- A subtask runs in the slot.
abbrev pub runs : String → Option SlotState → Bool
runs s none = false
runs s (some free) = false
runs s (some (occupied job t)) = t == s

-- The index names, for each of its subtasks, a slot in which that subtask runs; and there are as
-- many entries as slots that are not free.
pub record IsValid (m : SlotManager) : Type 0 where
  pub is_map : IsMap m.subtask_to_slot
  pub counted : length m.subtask_to_slot + count_free m.slots ≡ length m.slots
  pub placed :
      (s : String) (i : ℕ) → get s m.subtask_to_slot ≡ some i → runs s (get_elem? m.slots i) ≡ true

count_free-set_occupied :
    (ss : List SlotState) (i : ℕ) (job s : String)
    → get_elem? ss i ≡ some free
    → count_free (set ss i (occupied job s)) + 1 ≡ count_free ss
count_free-set_occupied [] i job s h = cc
count_free-set_occupied (x ∷ ss) zero job s h = ground arith
count_free-set_occupied (x ∷ ss) (suc i) job s h =
    ground (arith, count_free-set_occupied ss i job s)

count_free-set_free :
    (ss : List SlotState) (i : ℕ) (s : String)
    → runs s (get_elem? ss i) ≡ true
    → count_free (set ss i free) ≡ count_free ss + 1
count_free-set_free [] i s h = cc
count_free-set_free (free ∷ ss) zero s h = cc
count_free-set_free (occupied job t ∷ ss) zero s h = ground arith
count_free-set_free (x ∷ ss) (suc i) s h = ground (arith, count_free-set_free ss i s)

-- The position is that of the first free slot.
pub position_free-some :
    (ss : List SlotState) (i : ℕ)
    → position_free ss ≡ some i
    → (get_elem? ss i ≡ some free) × (i < length ss)
position_free-some [] i h = cc
position_free-some (free ∷ ss) zero h = ground arith
position_free-some (free ∷ ss) (suc i) h = ground arith
position_free-some (occupied job s ∷ ss) i h = elim (Option-cases (position_free ss)) [
  | inl e ↦ ground arith
  | inr (k, e) ↦ ground (arith, position_free-some ss k e)
]

pub position_free-none : (ss : List SlotState) → position_free ss ≡ none → count_free ss ≡ 0
position_free-none [] h = refl
position_free-none (free ∷ ss) h = cc
position_free-none (occupied job s ∷ ss) h = elim (Option-cases (position_free ss)) [
  | inl e ↦ ground (arith, position_free-none ss e)
  | inr (k, e) ↦ ground arith
]

pub count_free-replicate : (n : ℕ) → count_free (replicate n free) ≡ n
count_free-replicate zero = refl
count_free-replicate (suc n) = ground (arith, count_free-replicate n)

pub new-IsValid : (n : ℕ) → IsValid (new n)
unfolding new get
new-IsValid n = record {
  is_map = tt;
  counted = omega (arith, count_free-replicate n, length-replicate n free);
  placed = λ s i h. cc;
}

pub deploy_at-IsValid :
    (job s : String) (m : SlotManager) (i : ℕ)
    → IsValid m
    → get s m.subtask_to_slot ≡ none
    → get_elem? m.slots i ≡ some free
    → i < length m.slots
    → IsValid (deploy_at job s m (some i)).1
deploy_at-IsValid job s m i v new_name is_open h = record {
  is_map = insert-IsMap s i m.subtask_to_slot v.is_map;
  counted = omega (
    arith,
    v.counted,
    length-insert_new s i m.subtask_to_slot new_name,
    length-set m.slots i (occupied job s),
    count_free-set_occupied m.slots i job s is_open,
  );
  placed = λ t k e. ground (
    arith,
    get-insert s t i m.subtask_to_slot,
    string_eq.equals_iff s t,
    v.placed t k,
    get_elem?-set_self m.slots i (occupied job s) h,
    get_elem?-set_ne m.slots i k (occupied job s),
  );
}

runs_lt :
    (ss : List SlotState) (i : ℕ) (s : String) → runs s (get_elem? ss i) ≡ true → i < length ss
runs_lt [] i s h = cc
runs_lt (x ∷ ss) zero s h = omega arith
runs_lt (x ∷ ss) (suc i) s h = omega (arith, runs_lt ss i s h)

runs_unique : (o : Option SlotState) (s t : String) → runs s o ≡ true → runs t o ≡ true → s ≡ t
runs_unique none s t h k = cc
runs_unique (some free) s t h k = cc
runs_unique (some (occupied job u)) s t h k =
    ground (arith, string_eq.equals_iff u s, string_eq.equals_iff u t)

-- The manager without a subtask that runs in slot `i`.
abbrev pub vacated : String → ℕ → SlotManager → SlotManager
vacated s i m = record { slots = set m.slots i free; subtask_to_slot = remove s m.subtask_to_slot }

pub cancel_found :
    (s : String) (m : SlotManager) (i : ℕ)
    → runs s (get_elem? m.slots i) ≡ true
    → get s m.subtask_to_slot ≡ some i
    → cancel s m ≡ (ok true, vacated s i m)
unfolding cancel
cancel_found s m i r e = elim (Option-cases (get_elem? m.slots i)) [
  | inl n ↦ ground arith
  | inr (old, n) ↦ rw (e, cancel_at, free_slot, n) refl
]

pub cancel_missing :
    (s : String) (m : SlotManager) → get s m.subtask_to_slot ≡ none → cancel s m ≡ (ok false, m)
unfolding cancel
cancel_missing s m e = rw e refl

pub vacated-IsValid :
    (s : String) (m : SlotManager) (i : ℕ)
    → IsValid m
    → get s m.subtask_to_slot ≡ some i
    → IsValid (vacated s i m)
vacated-IsValid s m i v e = record {
  is_map = remove-IsMap s m.subtask_to_slot v.is_map;
  counted = omega (
    arith,
    v.counted,
    length-remove s i m.subtask_to_slot e,
    length-set m.slots i free,
    count_free-set_free m.slots i s (v.placed s i e),
  );
  placed = λ t k f. ground (
    arith,
    get-remove s t m.subtask_to_slot v.is_map,
    string_eq.equals_iff s t,
    v.placed t k,
    v.placed s i e,
    runs_unique (get_elem? m.slots i) s t,
    get_elem?-set_ne m.slots i k free,
  );
}

pub count_free-vacated :
    (s : String) (m : SlotManager) (i : ℕ)
    → runs s (get_elem? m.slots i) ≡ true
    → count_free (vacated s i m).slots ≡ count_free m.slots + 1
count_free-vacated s m i h = count_free-set_free m.slots i s h
