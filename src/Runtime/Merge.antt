-- ===== src/Runtime/Merge.antt =====
-- crates/flume-runtime/src/merge.rs: the merger of two inputs into one channel of `Either`s.
-- An input is the list of the elements that it will still deliver before it closes. Which branch of
-- `tokio::select!` wins is a schedule, one choice for each round of the loop. `output.send` is the
-- `collect_element` of a collector.
pub mod Views
pub mod Step
pub mod Falls
pub mod Total
pub mod Cuts
pub mod Align
pub mod Relabel
pub mod Barriers
pub mod Unmatched
mod Tests
use flume_rs.Base.{
  List, [], ◌∷◌, ◌++◌, Bool, true, false, not, ◌&&◌, Option, none, some, is_some, min, ltb,
  if◌then◌else◌,
}
use flume_rs.Core.Time.{EventTimestamp, timestamp_min}
use flume_rs.Core.Record.{
  Record, Watermark, CheckpointBarrier, StreamElement, rec, watermark, checkpoint_barrier, Either,
  left, right, map_record,
}
use flume_rs.Core.Result.{Run, ok, return, on_second, on_first, for_each, ◌>>=◌, ◌>>◌}
use flume_rs.Core.Collector.{Collector, collect_element, emit}

pub data Side : Type 0 where
  first second : Side

module _ (A B : Type 0) where
  -- The local variables of `two_input_merge`.
  pub record Merge : Type 0 where
    pub input1 : List (StreamElement A)
    pub input2 : List (StreamElement B)
    pub watermark1 : EventTimestamp
    pub watermark2 : EventTimestamp
    pub last_forwarded_watermark : EventTimestamp
    pub pending_barrier_from_1 : Option CheckpointBarrier
    pub pending_barrier_from_2 : Option CheckpointBarrier
    pub buffer1 : List (StreamElement (Either A B))
    pub buffer2 : List (StreamElement (Either A B))
    pub input1_open : Bool
    pub input2_open : Bool

module _ {A B : Type 0} where
  abbrev pub initial : List (StreamElement A) → List (StreamElement B) → Merge A B
  initial input1 input2 = record {
    input1 = input1;
    input2 = input2;
    watermark1 = timestamp_min;
    watermark2 = timestamp_min;
    last_forwarded_watermark = timestamp_min;
    pending_barrier_from_1 = none;
    pending_barrier_from_2 = none;
    buffer1 = [];
    buffer2 = [];
    input1_open = true;
    input2_open = true;
  }

  abbrev pub tag1 : Record A → StreamElement (Either A B)
  tag1 r = rec (map_record r left)

  abbrev pub tag2 : Record B → StreamElement (Either A B)
  tag2 r = rec (map_record r right)

  abbrev pub is_done : Merge A B → Bool
  is_done m = not m.input1_open && not m.input2_open

module _ {A B C : Type 0} (out : Collector C (Either A B)) where
  abbrev pub send : StreamElement (Either A B) → Run (Merge A B × C) (Unit {0})
  send x = on_second (collect_element out x)

  -- The forwarding of a watermark, after that of one input is set.
  abbrev pub forward : EventTimestamp → Run (Merge A B × C) (Unit {0})
  forward min_wm s =
      if ltb s.0.last_forwarded_watermark min_wm
      then send (watermark (record { timestamp = min_wm }))
          (record s.0 { last_forwarded_watermark = min_wm }, s.1)
      else (ok tt, s)

  unfoldable pub handle_element1 : StreamElement A → Run (Merge A B × C) (Unit {0})
  handle_element1 (rec r) (m, c) =
      if is_some m.pending_barrier_from_1
      then (ok tt, (record m { buffer1 = m.buffer1 ++ tag1 r ∷ [] }, c))
      else send (tag1 r) (m, c)
  handle_element1 (watermark w) (m, c) =
      forward (min w.timestamp m.watermark2) (record m { watermark1 = w.timestamp }, c)
  handle_element1 (checkpoint_barrier b) (m, c) =
      (ok tt, (record m { pending_barrier_from_1 = some b }, c))

  unfoldable pub handle_element2 : StreamElement B → Run (Merge A B × C) (Unit {0})
  handle_element2 (rec r) (m, c) =
      if is_some m.pending_barrier_from_2
      then (ok tt, (record m { buffer2 = m.buffer2 ++ tag2 r ∷ [] }, c))
      else send (tag2 r) (m, c)
  handle_element2 (watermark w) (m, c) =
      forward (min m.watermark1 w.timestamp) (record m { watermark2 = w.timestamp }, c)
  handle_element2 (checkpoint_barrier b) (m, c) =
      (ok tt, (record m { pending_barrier_from_2 = some b }, c))

  -- `buffer.drain(..)`: the buffer is empty afterwards, also if a send fails.
  abbrev pub flush_buffer1 : Run (Merge A B × C) (Unit {0})
  flush_buffer1 (m, c) = on_second (emit out m.buffer1) (record m { buffer1 = [] }, c)

  abbrev pub flush_buffer2 : Run (Merge A B × C) (Unit {0})
  flush_buffer2 (m, c) = on_second (emit out m.buffer2) (record m { buffer2 = [] }, c)

  abbrev pub flush_both : CheckpointBarrier → Run (Merge A B × C) (Unit {0})
  flush_both barrier = do
    on_first (λ m. record m { pending_barrier_from_1 = none; pending_barrier_from_2 = none })
    send (checkpoint_barrier barrier)
    flush_buffer1
    flush_buffer2

  abbrev pub flush_if :
      Option CheckpointBarrier → Option CheckpointBarrier → Run (Merge A B × C) (Unit {0})
  flush_if (some b1) (some b2) = flush_both b1
  flush_if (some b1) none = return tt
  flush_if none p2 = return tt

  unfoldable pub try_flush_barriers : Run (Merge A B × C) (Unit {0})
  try_flush_barriers s = flush_if s.0.pending_barrier_from_1 s.0.pending_barrier_from_2 s

  -- The receive of an input, by what it delivers next.
  abbrev pub receive1 :
      (StreamElement A → Run (Merge A B × C) (Unit {0}))
      → Run (Merge A B × C) (Unit {0})
      → List (StreamElement A)
      → Run (Merge A B × C) (Unit {0})
  receive1 some_case none_case [] = none_case
  receive1 some_case none_case (x ∷ xs) = on_first (λ m. record m { input1 = xs }) >> some_case x

  abbrev pub receive2 :
      (StreamElement B → Run (Merge A B × C) (Unit {0}))
      → Run (Merge A B × C) (Unit {0})
      → List (StreamElement B)
      → Run (Merge A B × C) (Unit {0})
  receive2 some_case none_case [] = none_case
  receive2 some_case none_case (x ∷ xs) = on_first (λ m. record m { input2 = xs }) >> some_case x

  abbrev pub close1 : Run (Merge A B × C) (Unit {0})
  close1 = on_first (λ m. record m { input1_open = false })

  abbrev pub close2 : Run (Merge A B × C) (Unit {0})
  close2 = on_first (λ m. record m { input2_open = false })

  -- `if let Some(barrier) = pending.take()`, when the other input closes instead of sending its own.
  abbrev pub release1 : Option CheckpointBarrier → Run (Merge A B × C) (Unit {0})
  release1 none = return tt
  release1 (some barrier) = do
    on_first (λ m. record m { pending_barrier_from_1 = none })
    send (checkpoint_barrier barrier)
    flush_buffer1

  abbrev pub release2 : Option CheckpointBarrier → Run (Merge A B × C) (Unit {0})
  release2 none = return tt
  release2 (some barrier) = do
    on_first (λ m. record m { pending_barrier_from_2 = none })
    send (checkpoint_barrier barrier)
    flush_buffer2

  -- Input 1 has sent its barrier: read input 2 only.
  unfoldable pub wait_for_2 : Run (Merge A B × C) (Unit {0})
  wait_for_2 s =
      receive2 (λ x. handle_element2 x >> try_flush_barriers)
        (close2 >> release1 s.0.pending_barrier_from_1) s.0.input2 s

  unfoldable pub wait_for_1 : Run (Merge A B × C) (Unit {0})
  wait_for_1 s =
      receive1 (λ x. handle_element1 x >> try_flush_barriers)
        (close1 >> release2 s.0.pending_barrier_from_2) s.0.input1 s

  unfoldable pub read_1 : Run (Merge A B × C) (Unit {0})
  read_1 s = receive1 handle_element1 close1 s.0.input1 s

  unfoldable pub read_2 : Run (Merge A B × C) (Unit {0})
  read_2 s = receive2 handle_element2 close2 s.0.input2 s

  -- `tokio::select!`, and the match on which inputs are open.
  abbrev pub read_open : Side → Bool → Bool → Run (Merge A B × C) (Unit {0})
  read_open first true true = read_1
  read_open second true true = read_2
  read_open choice true false = read_1
  read_open choice false true = read_2
  read_open choice false false = return tt

  abbrev pub dispatch :
      Side → Option CheckpointBarrier → Option CheckpointBarrier → Run (Merge A B × C) (Unit {0})
  dispatch choice (some b1) none s = wait_for_2 s
  dispatch choice none (some b2) s = wait_for_1 s
  dispatch choice none none s = read_open choice s.0.input1_open s.0.input2_open s
  dispatch choice (some b1) (some b2) s = read_open choice s.0.input1_open s.0.input2_open s

  -- One round of the loop, when it does not break.
  unfoldable pub round : Side → Run (Merge A B × C) (Unit {0})
  round choice s = dispatch choice s.0.pending_barrier_from_1 s.0.pending_barrier_from_2 s

  -- `true` when the loop has ended by its `break`, `false` when the schedule ends before.
  unfoldable pub two_input_merge : List Side → Run (Merge A B × C) Bool
  two_input_merge [] s = (ok (is_done s.0), s)
  two_input_merge (choice ∷ choices) s =
      let rest = (round choice >>= λ _. two_input_merge choices) s in
      if is_done s.0 then (ok true, s) else rest
