-- ===== src/Core/Operator/Process/Co.antt =====
-- `CoProcessOperator` of crates/flume-core/src/operator/process.rs.
use flume_rs.Core.Record.{Record, Watermark, Either, left, right}
use flume_rs.Core.Result.{Run}
use flume_rs.Core.Timer.{set_current_key}
use flume_rs.Core.Collector.{Collector}
use flume_rs.Core.Process.{ProcessContext, CoProcessFunction, Call}
use flume_rs.Core.Operator.Process
use flume_rs.Core.Operator.Process.{
  ProcessOperator, key_or_default, key_ref, context_for, element_done, watermark_with,
}

abbrev pub CoProcessOperator : Type 0 → Type 0 → Type 0
CoProcessOperator P E = ProcessOperator P E

abbrev pub new_operator : {P E : Type 0} → P → CoProcessOperator P E
new_operator f = Process.new_operator f

abbrev pub with_emitter : {P E : Type 0} → CoProcessOperator P E → E → CoProcessOperator P E
with_emitter op emitter = Process.with_emitter op emitter

module _ {P E C In1 In2 Out : Type 0} (f : CoProcessFunction P E C In1 In2 Out)
    (out : Collector C Out) where
  abbrev pub dispatch : Either In1 In2 → Call P (ProcessContext E) C
  dispatch (left v) = f.process_element1 v out
  dispatch (right v) = f.process_element2 v out

  unfoldable pub process_record :
      Record (Either In1 In2) → Run (CoProcessOperator P E × C) (Unit {0})
  process_record r (op, c) =
      let timers = set_current_key op.timer_service (key_or_default r.key) in
      let ctx = context_for r.timestamp (key_ref r.key) timers op.side_outputs in
      element_done (dispatch r.value (op.process_fn, ctx, c))

  unfoldable pub process_watermark : Watermark → Run (CoProcessOperator P E × C) (Unit {0})
  process_watermark = watermark_with (λ timestamp key. f.on_timer timestamp out) out
