-- ===== src/Core/Operator/Process/Tests.antt =====
-- The theorems on operator/process.rs at a function that counts its calls and sets timers.
use flume_rs.Base.{ℕ, ◌+◌, refl, none, List, [], ◌∷◌, arith, if◌then◌else◌, ◌==◌, nat_eq}
use flume_rs.Core.Record.{StreamElement, Watermark, new}
use flume_rs.Core.Result.{FlumeResult, ok, err, operator}
use flume_rs.Core.Timer.{TimerService, new_service, register_event_time_timer}
use flume_rs.Core.Collector.{recorder}
use flume_rs.Core.Process.{KeyedProcessFunction}
use flume_rs.Core.Operator.Process.{ProcessOperator}
use flume_rs.Core.Operator.Process.Keyed.{process_watermark}
use flume_rs.Core.Operator.Process.Fires.{
  Seen, logged, Logs, due_timers, taken, Settles, process_watermark_fires_due,
  process_watermark-Settles,
}

abbrev Out : Type 0
Out = List (StreamElement ℕ)

-- It counts its elements, sets a timer at the value, and emits the time when one fires; the timer
-- of 8 fails, and that of 5 sets one more, which is due at once.
abbrev next_timer : ℕ → TimerService → TimerService
next_timer t timers = if t == 5 then register_event_time_timer timers 6 else timers

abbrev outcome : ℕ → FlumeResult (Unit {0})
outcome t = if t == 8 then err operator else ok tt

abbrev counts : KeyedProcessFunction ℕ (Unit {0}) Out ℕ ℕ
counts = record {
  process_element = λ key v out (n, ctx, c). (
    ok tt,
    (n + 1, record ctx { timer_service = register_event_time_timer ctx.timer_service v }, c),
  );
  on_timer = λ t key out (n, ctx, c). (
    outcome t,
    (n, record ctx { timer_service = next_timer t ctx.timer_service }, (out.collect (new t t) c).1),
  );
}

abbrev three_timers : TimerService
three_timers = record new_service {
  queue = record {
    event_time_timers = (5, 1 ∷ []) ∷ (8, 2 ∷ []) ∷ (9, []) ∷ [];
    processing_time_timers = [];
  };
}

abbrev with_timers : {P : Type 0} → P → ProcessOperator P (Unit {0})
with_timers p = record { process_fn = p; timer_service = three_timers; side_outputs = none }

abbrev at_nine : Watermark
at_nine = record { timestamp = 9 }

abbrev no_log : List Seen
no_log = []

abbrev logged_timers : ProcessOperator (ℕ × List Seen) (Unit {0})
logged_timers = with_timers (0, no_log)

abbrev no_output : Out
no_output = []

process_watermark_fires_due_example :
    Logs at_nine no_log
      (due_timers logged_timers at_nine)
      (process_watermark (logged counts) recorder at_nine (logged_timers, no_output))
process_watermark_fires_due_example =
    process_watermark_fires_due counts recorder at_nine logged_timers no_output (omega arith)

-- A function that fails on the timer of 8 and leaves the timers alone.
abbrev fails : KeyedProcessFunction ℕ (Unit {0}) Out ℕ ℕ
fails = record counts { on_timer = λ t key out (n, ctx, c). (outcome t, (n + 1, ctx, c)) }

process_watermark-Settles_example :
    Settles
      (taken (with_timers 0) at_nine)
      (process_watermark fails recorder at_nine (with_timers 0, no_output))
process_watermark-Settles_example =
    process_watermark-Settles fails recorder at_nine (with_timers 0) no_output
      (λ t key p ctx c. refl) (omega arith)
