-- ===== src/Runtime/Aligner.antt =====
-- crates/flume-runtime/src/checkpoint/aligner.rs. An input is the list of the elements that it will
-- still deliver before it closes. When they arrive is a schedule: each choice is the input whose
-- next element is found by the following poll, since an element may arrive between any two polls.
pub mod Views
mod Drain
mod Handle
pub mod Takes
mod Tests
use flume_rs.Base.{
  ℕ, zero, suc, ◌-◌, List, [], ◌∷◌, ◌++◌, map, Option, none, some, Bool, true, false, ◌&&◌, all,
  length, get_elem?, set, replicate, eqb, if◌then◌else◌,
}
use flume_rs.Core.Record.{CheckpointBarrier, StreamElement, rec, watermark, checkpoint_barrier}

pub data AlignerOutput (T : Type 0) : Type 0 where
  element : StreamElement T → AlignerOutput T
  barrier_aligned : CheckpointBarrier → AlignerOutput T

-- The end of a call of `next`: `Some`, `None`, or the schedule ends while it waits.
pub data Polled (T : Type 0) : Type 0 where
  gives : AlignerOutput T → Polled T
  closed : Polled T
  waiting : Polled T

pub record BarrierAligner (T : Type 0) : Type 0 where
  pub inputs : List (List (StreamElement T))
  pub barrier_received : List Bool
  pub blocked_buffers : List (List (StreamElement T))
  pub pending_barrier : Option CheckpointBarrier
  pub drain_index : ℕ

abbrev pub is_true : Option Bool → Bool
is_true none = false
is_true (some b) = b

abbrev pub or_pending : Option CheckpointBarrier → CheckpointBarrier → CheckpointBarrier
or_pending none b = b
or_pending (some p) b = p

module _ {T : Type 0} where
  abbrev pub new_aligner : List (List (StreamElement T)) → BarrierAligner T
  new_aligner inputs = record {
    inputs = inputs;
    barrier_received = replicate (length inputs) false;
    blocked_buffers = replicate (length inputs) [];
    pending_barrier = none;
    drain_index = 0;
  }

  -- The loop of phase 1, by how many buffers are left to look at.
  unfoldable pub drain : ℕ → BarrierAligner T → Option (StreamElement T) × BarrierAligner T
  drain zero a = (none, a)
  drain (suc left) a = elim (get_elem? a.blocked_buffers a.drain_index) [
    | none ↦ (none, a)
    | some buffer ↦ elim buffer [
      | [] ↦ drain left (record a { drain_index = suc a.drain_index })
      | x ∷ xs ↦ (some x, record a { blocked_buffers = set a.blocked_buffers a.drain_index xs })
    ]
  ]

  abbrev pub output_of : StreamElement T → AlignerOutput T
  output_of (rec r) = element (rec r)
  output_of (watermark w) = element (watermark w)
  output_of (checkpoint_barrier b) = barrier_aligned b

  abbrev pub next_single : BarrierAligner T → Polled T × BarrierAligner T
  next_single a = elim (get_elem? a.inputs 0) [
    | none ↦ (closed, a)
    | some input ↦ elim input [
      | [] ↦ (closed, a)
      | x ∷ xs ↦ (gives (output_of x), record a { inputs = set a.inputs 0 xs })
    ]
  ]

  -- A barrier of the input `i`; `none` when the loop goes on.
  abbrev pub on_barrier :
      ℕ → CheckpointBarrier → BarrierAligner T → Option (AlignerOutput T) × BarrierAligner T
  on_barrier i b a =
      let received = set a.barrier_received i true in
      let barrier = or_pending a.pending_barrier b in
      if all (λ r. r) received
      then (
        some (barrier_aligned barrier),
        record a {
          barrier_received = replicate (length received) false;
          pending_barrier = none;
          drain_index = 0;
        },
      )
      else (none, record a { barrier_received = received; pending_barrier = some barrier })

  abbrev pub push_back :
      ℕ → StreamElement T → List (List (StreamElement T)) → List (List (StreamElement T))
  push_back i x buffers = elim (get_elem? buffers i) [
    | none ↦ buffers
    | some buffer ↦ set buffers i (buffer ++ x ∷ [])
  ]

  -- An element that is no barrier.
  abbrev pub on_other :
      ℕ → StreamElement T → BarrierAligner T → Option (AlignerOutput T) × BarrierAligner T
  on_other i x a =
      if is_true (get_elem? a.barrier_received i)
      then (none, record a { blocked_buffers = push_back i x a.blocked_buffers })
      else (some (element x), a)

  unfoldable pub handle :
      ℕ → StreamElement T → BarrierAligner T → Option (AlignerOutput T) × BarrierAligner T
  handle i (checkpoint_barrier b) a = on_barrier i b a
  handle i (rec r) a = on_other i (rec r) a
  handle i (watermark w) a = on_other i (watermark w) a

  abbrev pub is_empty : List (StreamElement T) → Bool
  is_empty [] = true
  is_empty (x ∷ xs) = false

  -- After an element: return the output, or go on with the loop.
  abbrev pub after :
      (BarrierAligner T → Polled T × BarrierAligner T)
      → Option (AlignerOutput T) × BarrierAligner T
      → Polled T × BarrierAligner T
  after more (none, a) = more a
  after more (some o, a) = (gives o, a)

  -- A poll of one input; an empty one gives nothing.
  abbrev pub poll :
      (BarrierAligner T → Polled T × BarrierAligner T)
      → ℕ
      → BarrierAligner T
      → Option (List (StreamElement T))
      → Polled T × BarrierAligner T
  poll more i a none = more a
  poll more i a (some []) = more a
  poll more i a (some (x ∷ xs)) = after more (handle i x (record a { inputs = set a.inputs i xs }))

  unfoldable pub next_multi : List ℕ → BarrierAligner T → Polled T × BarrierAligner T
  next_multi [] a = if all is_empty a.inputs then (closed, a) else (waiting, a)
  next_multi (i ∷ choices) a =
      let polled = poll (next_multi choices) i a (get_elem? a.inputs i) in
      if all is_empty a.inputs then (closed, a) else polled

  abbrev pub after_drain :
      List ℕ → Option (StreamElement T) × BarrierAligner T → Polled T × BarrierAligner T
  after_drain choices (some x, a) = (gives (element x), a)
  after_drain choices (none, a) =
      if eqb (length a.inputs) 1 then next_single a else next_multi choices a

  unfoldable pub next : List ℕ → BarrierAligner T → Polled T × BarrierAligner T
  next choices a = after_drain choices (drain (length a.blocked_buffers - a.drain_index) a)
