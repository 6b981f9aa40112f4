-- ===== src/Runtime/Coordinator/Complete.antt =====
-- When a checkpoint of coordinator.rs succeeds, and what is then in the store.
use Prim.Native.String.{String}
use flume_rs.Base.{
  ℕ, ◌≡◌, ◌≢◌, List, [], ◌∷◌, ◌++◌, Bool, true, false, length, ltb, eqb, if◌then◌else◌, arith,
}
use mathlib.Core.List.{append_assoc, append-nil}
use flume_rs.Core.Record.{Bytes, CheckpointAck, CheckpointBarrier}
use flume_rs.Runtime.Coordinator.{
  success, Arrival, ack, closed, late, SnapshotStore, insert, collect, barrier_of, inject,
  trigger_and_collect,
}

-- A store that keeps what it is given: the states saved, and the checkpoints committed.
abbrev pub Saved : Type 0
Saved = ℕ × (String × Bytes)

abbrev pub keeping : SnapshotStore (List Saved × List ℕ)
keeping = record {
  save_state = λ id name bytes d. (true, (d.0 ++ (id, (name, bytes)) ∷ [], d.1));
  commit = λ id d. (true, (d.0, d.1 ++ id ∷ []));
}

-- The acknowledgements of the checkpoint that are taken, before the channel closes, the deadline
-- passes or enough different operators have answered.
abbrev pub taken : ℕ → ℕ → List String → List Arrival → List CheckpointAck
taken id n received [] = []
taken id n received (closed ∷ arrivals) = []
taken id n received (late ∷ arrivals) = []
taken id n received (ack a ∷ arrivals) =
    let counted = taken id n (insert a.operator_name received) arrivals in
    let ignored = taken id n received arrivals in
    if ltb (length received) n
    then (if eqb a.checkpoint_id id then a ∷ counted else ignored)
    else []

abbrev pub names_after : List String → List CheckpointAck → List String
names_after received [] = received
names_after received (a ∷ acks) = names_after (insert a.operator_name received) acks

abbrev pub states_of : ℕ → List CheckpointAck → List Saved
states_of id [] = []
states_of id (a ∷ acks) = (id, (a.operator_name, a.state_bytes)) ∷ states_of id acks

module _ (expected_operators : List String) where
  pub collect_lem :
      (arrivals : List Arrival) (id : ℕ) (received : List String) (saved : List Saved)
      (committed : List ℕ)
      → let n = length expected_operators in
        let acks = taken id n received arrivals in
        let lacking = ltb (length (names_after received acks)) n in
        let r = collect keeping expected_operators arrivals id received (saved, committed) in
        (r.1.0 ≡ saved ++ states_of id acks)
        × (lacking ≡ false → (r.0 ≡ success) × (r.1.1 ≡ committed ++ id ∷ []))
        × (lacking ≡ true → (r.0 ≢ success) × (r.1.1 ≡ committed))
  unfolding collect
  collect_lem [] id received saved committed = ground (arith, append-nil saved)
  collect_lem (closed ∷ arrivals) id received saved committed = ground (arith, append-nil saved)
  collect_lem (late ∷ arrivals) id received saved committed = ground (arith, append-nil saved)
  collect_lem (ack a ∷ arrivals) id received saved committed = ground (
    arith,
    append-nil saved,
    append_assoc saved ((id, (a.operator_name, a.state_bytes)) ∷ []) (
        states_of id
          (taken id (length expected_operators) (insert a.operator_name received) arrivals)),
    collect_lem arrivals id received saved committed,
    collect_lem arrivals id (insert a.operator_name received)
        (saved ++ (id, (a.operator_name, a.state_bytes)) ∷ []) committed,
  )

module _ {D : Type 0} (store : SnapshotStore D) (these those : List String) where
  collect-names :
      (arrivals : List Arrival) (id : ℕ) (received : List String) (d : D)
      → length these ≡ length those
      → collect store these arrivals id received d ≡ collect store those arrivals id received d
  unfolding collect
  collect-names [] id received d h = ground arith
  collect-names (closed ∷ arrivals) id received d h = ground arith
  collect-names (late ∷ arrivals) id received d h = ground arith
  collect-names (ack a ∷ arrivals) id received d h =
      let (fine, d') = store.save_state id a.operator_name a.state_bytes d in
      ground (
        arith,
        collect-names arrivals id received d h,
        collect-names arrivals id (insert a.operator_name received) d' h,
      )

  -- A checkpoint depends only on how many operators are expected, not on which: with any store, any
  -- sources and any arrivals, it ends in the same way for two lists of names of the same length. So
  -- an acknowledgement by an operator that is not expected counts as one that is.
  pub names_not_checked :
      (senders : List (CheckpointBarrier → D → Bool × D)) (arrivals : List Arrival) (id : ℕ) (d : D)
      → length these ≡ length those
      → trigger_and_collect store these senders arrivals id d
        ≡ trigger_and_collect store those senders arrivals id d
  unfolding trigger_and_collect
  names_not_checked senders arrivals id d h =
      ground (arith, collect-names arrivals id [] (inject senders (barrier_of id) d).1 h)
