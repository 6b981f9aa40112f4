-- ===== src/Core/Operator/Process/Keyed.antt =====
-- `KeyedProcessOperator` of crates/flume-core/src/operator/process.rs: the function is given the key,
-- and the context always shows one.
use flume_rs.Base.{some}
use flume_rs.Core.Record.{Record, Watermark}
use flume_rs.Core.Result.{Run}
use flume_rs.Core.Timer.{set_current_key}
use flume_rs.Core.Collector.{Collector}
use flume_rs.Core.Process.{KeyedProcessFunction}
use flume_rs.Core.Operator.Process
use flume_rs.Core.Operator.Process.{
  ProcessOperator, key_or_default, context_for, element_done, watermark_with,
}

abbrev pub KeyedProcessOperator : Type 0 → Type 0 → Type 0
KeyedProcessOperator P E = ProcessOperator P E

abbrev pub new_operator : {P E : Type 0} → P → KeyedProcessOperator P E
new_operator f = Process.new_operator f

abbrev pub with_emitter : {P E : Type 0} → KeyedProcessOperator P E → E → KeyedProcessOperator P E
with_emitter op emitter = Process.with_emitter op emitter

module _ {P E C In Out : Type 0} (f : KeyedProcessFunction P E C In Out)
    (out : Collector C Out) where
  unfoldable pub process_record : Record In → Run (KeyedProcessOperator P E × C) (Unit {0})
  process_record r (op, c) =
      let key = key_or_default r.key in
      let timers = set_current_key op.timer_service key in
      let ctx = context_for r.timestamp (some key) timers op.side_outputs in
      element_done (f.process_element key r.value out (op.process_fn, ctx, c))

  unfoldable pub process_watermark : Watermark → Run (KeyedProcessOperator P E × C) (Unit {0})
  process_watermark = watermark_with (λ timestamp key. f.on_timer timestamp key out) out
