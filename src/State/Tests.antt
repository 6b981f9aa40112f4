-- ===== src/State/Tests.antt =====
-- The theorems on crates/flume-state at a backend with one state, and a codec for such backends.
use Prim.Native.String.{String}
use flume_rs.Base.{
  some_inj, ℕ, ◌≡◌, ◌≢◌, refl, sym, ap, ◌∙◌, true, false, subst, List, [], ◌∷◌, Option, none, some,
  ◌==◌, if◌then◌else◌, Bool-cases, inl, inr,
}
use flume_rs.Base.Keys.{Eq, string_eq, nat_eq, list_eq}
use flume_rs.Base.HashMap.{HashMap, get, insert, IsMap}
use flume_rs.Core.Record.{Bytes}
use flume_rs.Core.Result.{ok}
use flume_rs.State.Codec.{Codec, Bitcode, SameMap, RoundTrips, IsFaithful}
use flume_rs.State.Memory.{Heap, Content, value, list, entries}
use flume_rs.State.Memory.Backend.{
  ErasedState, value_state, list_state, map_state, MemoryStateBackend, new_backend, snapshot,
  snapshot_all, restore, create_value_state, create_list_state, create_map_state,
}
use flume_rs.State.Memory.Backend.Live.{value_fits, fresh, Live, Same}
use flume_rs.State.Memory.Backend.Restore.{AllLive}
use flume_rs.State.Memory.Backend.RoundTrip.{IsValid, restore-snapshot}
use flume_rs.State.Memory.Backend.Create.{Op, set_value, apply, apply_lem}
use flume_rs.State.Memory.Backend.Fresh.{Created, value_handle, list_handle, map_handle, create_lem}
use flume_rs.State.Keyed.{KeyedStateBackend, new_keyed}
use flume_rs.State.Keyed
use flume_rs.State.Keyed.Restart.{new_restores_nothing}

abbrev value_codec : Codec (Option ℕ)
value_codec = record {
  serialize = λ v. some (elim v [ none ↦ [] | some n ↦ n ∷ [] ]);
  deserialize = λ bytes. some (elim bytes [ [] ↦ none | n ∷ ns ↦ some n ]);
}

abbrev list_codec : Codec (List ℕ)
list_codec = record { serialize = λ vs. some vs; deserialize = λ bytes. some bytes }

none-ne : {A : Type 0} {a : A} → none ≡ some a → ⊥
none-ne e = cc

nil-IsMap : (k v : ℕ) → IsMap ((k, v) ∷ [])
unfolding get
nil-IsMap k v = (refl, tt)

-- A map with one entry at most, whose key is `only`.
module _ {K : Type 0} ⦃e : Eq K⦄ (only : K) where
  abbrev write_one : HashMap K Bytes → Option Bytes
  write_one [] = some []
  write_one ((k, bytes) ∷ []) = if only == k then some (1 ∷ bytes) else none
  write_one (x ∷ y ∷ m) = none

  abbrev read_one : Bytes → HashMap K Bytes
  read_one [] = []
  read_one (n ∷ bytes) = (only, bytes) ∷ []

  abbrev one_codec : Codec (HashMap K Bytes)
  one_codec = record { serialize = write_one; deserialize = λ bytes. some (read_one bytes) }

  written : (k : K) (b : Bytes) → (only == k) ≡ true → write_one ((k, b) ∷ []) ≡ some (1 ∷ b)
  written k b q = rw q refl

  refused : (k : K) (b : Bytes) → (only == k) ≡ false → write_one ((k, b) ∷ []) ≡ none
  refused k b q = rw q refl

  one_codec-RoundTrips : RoundTrips SameMap one_codec
  unfolding get
  one_codec-RoundTrips [] bytes h =
      ([], ap (λ x. some (read_one x)) (sym (some_inj h)), (tt, λ k. refl))
  one_codec-RoundTrips ((k, b) ∷ []) bytes h = elim (Bool-cases (only == k)) [
    | inl q ↦ (
      (only, b) ∷ [],
      ap (λ x. some (read_one x)) (some_inj (sym h ∙ written k b q)),
      ((refl, tt), λ j. ap (λ i. get j ((i, b) ∷ [])) ((e.equals_iff only k).0 q)),
    )
    | inr q ↦ absurd (none-ne (sym (refused k b q) ∙ h))
  ]
  one_codec-RoundTrips (x ∷ y ∷ m) bytes h = absurd (none-ne h)

abbrev write_entries : HashMap ℕ ℕ → Option Bytes
write_entries [] = some []
write_entries ((k, v) ∷ []) = some (k ∷ v ∷ [])
write_entries (x ∷ y ∷ m) = none

abbrev read_entries : Bytes → HashMap ℕ ℕ
read_entries [] = []
read_entries (k ∷ []) = []
read_entries (k ∷ v ∷ bytes) = (k, v) ∷ []

abbrev entries_codec : Codec (HashMap ℕ ℕ)
entries_codec = record {
  serialize = write_entries;
  deserialize = λ bytes. some (read_entries bytes);
}

value_codec-RoundTrips : RoundTrips (λ a b. b ≡ a) value_codec
value_codec-RoundTrips none bytes h = (none, ap value_codec.deserialize (sym (some_inj h)), refl)
value_codec-RoundTrips (some n) bytes h =
    (some n, ap value_codec.deserialize (sym (some_inj h)), refl)

entries_codec-RoundTrips : RoundTrips SameMap entries_codec
entries_codec-RoundTrips [] bytes h =
    ([], ap (λ x. some (read_entries x)) (sym (some_inj h)), (tt, λ k. refl))
entries_codec-RoundTrips ((k, v) ∷ []) bytes h =
    ((k, v) ∷ [], ap (λ x. some (read_entries x)) (sym (some_inj h)), one_entry k v)
  where
    one_entry : (k v : ℕ) → SameMap ((k, v) ∷ []) ((k, v) ∷ [])
    one_entry k v = (nil-IsMap k v, λ j. refl)
entries_codec-RoundTrips (x ∷ y ∷ m) bytes h = absurd (none-ne h)

abbrev bitcode : Bitcode ℕ ℕ
bitcode = record {
  value = value_codec;
  list = list_codec;
  entries = entries_codec;
  table = one_codec "counter";
  keyed_table = one_codec (7 ∷ []);
}

bitcode-IsFaithful : IsFaithful bitcode
bitcode-IsFaithful = record {
  value = value_codec-RoundTrips;
  list = λ a bytes h. (bytes, refl, sym (some_inj h));
  entries = entries_codec-RoundTrips;
  table = one_codec-RoundTrips "counter";
  keyed_table = one_codec-RoundTrips (7 ∷ []);
}

abbrev backend : MemoryStateBackend
backend = record { states = ("counter", value_state 0) ∷ [] }

abbrev heap : Heap ℕ ℕ
heap = fresh (value (some 42)) ∷ []

abbrev later : Heap ℕ ℕ
later = fresh (value (some 999)) ∷ []

only_state :
    (name : String) (s : ErasedState)
    → get name backend.states ≡ some s
    → (s ≡ value_state 0) × ("counter" ≡ name)
unfolding get
only_state name s h = elim (Bool-cases ("counter" == name)) [
  | inl q ↦ (some_inj (sym h ∙ rw q refl), (string_eq.equals_iff "counter" name).0 q)
  | inr q ↦ absurd (none-ne (sym (rw q refl) ∙ h))
]

counter-Live :
    (n : ℕ) (name : String) (s : ErasedState)
    → get name backend.states ≡ some s
    → (c : Content ℕ ℕ) × Live (fresh (value (some n)) ∷ []) s c
counter-Live n name s h = (
  value (some n),
  subst (λ x. Live {K = ℕ} (fresh (value (some n)) ∷ []) x (value (some n)))
      (sym (only_state name s h).0) (value_fits 0 (some n), refl),
)

backend-IsValid : IsValid backend heap
unfolding get
backend-IsValid = record {
  is_map = (refl, tt);
  live = counter-Live 42;
  apart = λ n m s t h k e. sym (only_state n s h).1 ∙ (only_state m t k).1;
}

restore-snapshot_example :
    (heap' : Heap ℕ ℕ) × (restore bitcode backend (1 ∷ 42 ∷ []) later ≡ (ok tt, heap'))
    × AllLive backend heap'
    × ((name : String) (s : ErasedState) (c : Content ℕ ℕ)
        → get name backend.states ≡ some s
        → Live heap s c
        → (d : Content ℕ ℕ) × Live heap' s d × Same c d)
unfolding snapshot snapshot_all insert
restore-snapshot_example =
    restore-snapshot bitcode backend heap later (1 ∷ 42 ∷ []) bitcode-IsFaithful backend-IsValid
      refl (counter-Live 999)

abbrev set_seven : Op ℕ ℕ
set_seven = set_value 0 7

apply_lem_example :
    let (r, heap') = apply set_seven heap in
    (r ≡ ok tt)
    × IsValid backend heap'
    × Live heap' (value_state 0) (value (some 7))
    × ((m : String) (s : ErasedState) (d : Content ℕ ℕ)
        → get m backend.states ≡ some s
        → m ≢ "counter"
        → Live heap s d
        → Live heap' s d)
unfolding get
apply_lem_example =
    apply_lem backend heap set_seven "counter" (value (some 42)) backend-IsValid refl
      (value_fits 0 (some 42), refl)

create_lem_example :
    Created "buffer" backend heap value_handle
      (λ a. value_state a)
      (value none)
      (create_value_state "buffer" (backend, heap))
    × Created "buffer" backend heap list_handle
        (λ a. list_state a)
        (list [])
        (create_list_state "buffer" (backend, heap))
    × Created "buffer" backend heap map_handle
        (λ a. map_state a)
        (entries [])
        (create_map_state "buffer" (backend, heap))
create_lem_example = create_lem "buffer" backend heap backend-IsValid

abbrev keyed : KeyedStateBackend
keyed = record { backends = (7 ∷ [], backend) ∷ []; current_key = some (7 ∷ []) }

new_restores_nothing_example :
    (Keyed.restore bitcode new_keyed (1 ∷ 1 ∷ 42 ∷ []) later ≡ (ok tt, later))
    × (restore bitcode new_backend (1 ∷ 42 ∷ []) later ≡ (ok tt, later))
unfolding snapshot snapshot_all Keyed.snapshot Keyed.snapshot_all insert
new_restores_nothing_example =
    new_restores_nothing bitcode keyed backend heap later (1 ∷ 1 ∷ 42 ∷ []) (1 ∷ 42 ∷ [])
      bitcode-IsFaithful refl refl
