-- ===== src/Core/Operator/Process.antt =====
-- crates/flume-core/src/operator/process.rs: the three operators have the same fields, and one record
-- here. `ProcessOperator` is in this file, `KeyedProcessOperator` and `CoProcessOperator` in Keyed
-- and Co.
pub mod Keyed
pub mod Co
pub mod Fires
pub mod Agree
mod Tests
use flume_rs.Base.{List, [], Option, none, some}
use flume_rs.Core.Time.{EventTimestamp}
use flume_rs.Core.Record.{Bytes, Record, Watermark, CheckpointBarrier}
use flume_rs.Core.Result.{FlumeResult, Run, for_each, on_second, ◌>>◌}
use flume_rs.Core.Timer.{
  Timer, TimerService, new_service, set_current_key, set_watermark, fire_event_time_up_to,
}
use flume_rs.Core.Collector.{Collector}
use flume_rs.Core.Process.{
  ProcessContext, new, with_side_outputs, OnTimerContext, Call, ProcessFunction,
}

pub record ProcessOperator (P E : Type 0) : Type 0 where
  pub process_fn : P
  pub timer_service : TimerService
  pub side_outputs : Option E

-- `record.key.clone().unwrap_or_default()`
abbrev pub key_or_default : Option Bytes → Bytes
key_or_default none = []
key_or_default (some k) = k

-- The key that the context shows: that of the record, where it has one.
abbrev pub key_ref : Option Bytes → Option Bytes
key_ref none = none
key_ref (some k) = some (key_or_default (some k))

abbrev pub context_for :
    {E : Type 0} → EventTimestamp → Option Bytes → TimerService → Option E → ProcessContext E
context_for timestamp key timers none = new timestamp key timers
context_for timestamp key timers (some e) = with_side_outputs timestamp key timers e

module _ {P E : Type 0} where
  abbrev pub new_operator : P → ProcessOperator P E
  new_operator f = record { process_fn = f; timer_service = new_service; side_outputs = none }

  abbrev pub with_emitter : ProcessOperator P E → E → ProcessOperator P E
  with_emitter op emitter = record op { side_outputs = some emitter }

  -- The operator once its watermark is set and the due timers have left the queue, and these timers.
  unfoldable pub take_fired : ProcessOperator P E → Watermark → List Timer × ProcessOperator P E
  take_fired op w =
      let timers = set_watermark op.timer_service w.timestamp in
      let (fired, queue) = fire_event_time_up_to timers.queue w.timestamp in
      (fired, record op { timer_service = record timers { queue = queue } })

module _ {P E C : Type 0} where
  -- The end of a call: what the context borrowed is the operator's again.
  abbrev pub element_done :
      FlumeResult (Unit {0}) × (P × ProcessContext E × C)
      → FlumeResult (Unit {0}) × (ProcessOperator P E × C)
  element_done (r, (p, ctx, c)) = (
    r,
    (
      record { process_fn = p; timer_service = ctx.timer_service; side_outputs = ctx.side_outputs },
      c,
    ),
  )

  abbrev pub timer_done :
      Option E
      → FlumeResult (Unit {0}) × (P × OnTimerContext × C)
      → FlumeResult (Unit {0}) × (ProcessOperator P E × C)
  timer_done e (r, (p, ctx, c)) =
      (r, (record { process_fn = p; timer_service = ctx.timer_service; side_outputs = e }, c))

  -- The body of the loop over the fired timers.
  abbrev pub fire_timer :
      (EventTimestamp → Bytes → Call P OnTimerContext C)
      → Watermark
      → Timer
      → Run (ProcessOperator P E × C) (Unit {0})
  fire_timer on_timer w (timestamp, key) (op, c) = timer_done op.side_outputs (
      on_timer timestamp key (
        op.process_fn,
        record {
          current_watermark = w.timestamp;
          timer_service = set_current_key op.timer_service key;
        },
        c,
      ))

  -- The three `process_watermark` differ in how they call `on_timer`.
  abbrev pub watermark_with :
      {Out : Type 0}
      → (EventTimestamp → Bytes → Call P OnTimerContext C)
      → Collector C Out
      → Watermark
      → Run (ProcessOperator P E × C) (Unit {0})
  watermark_with on_timer out w (op, c) =
      let (fired, op') = take_fired op w in
      (for_each (fire_timer on_timer w) fired >> on_second (out.collect_watermark w)) (op', c)

module _ {P E C In Out : Type 0} (f : ProcessFunction P E C In Out) (out : Collector C Out) where
  unfoldable pub process_record : Record In → Run (ProcessOperator P E × C) (Unit {0})
  process_record r (op, c) =
      let timers = set_current_key op.timer_service (key_or_default r.key) in
      let ctx = context_for r.timestamp (key_ref r.key) timers op.side_outputs in
      element_done (f.process_element r.value out (op.process_fn, ctx, c))

  unfoldable pub process_watermark : Watermark → Run (ProcessOperator P E × C) (Unit {0})
  process_watermark = watermark_with (λ timestamp key. f.on_timer timestamp out) out

module _ {P E C Out : Type 0} (out : Collector C Out) where
  abbrev pub process_barrier : CheckpointBarrier → Run (ProcessOperator P E × C) (Unit {0})
  process_barrier b = on_second (out.collect_barrier b)
