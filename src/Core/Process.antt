-- ===== src/Core/Process.antt =====
-- crates/flume-core/src/process.rs. A function of the user takes `&mut self`: its state, of type
-- `P`, stands beside the context that it is lent and beside the collector. An emitter of side
-- outputs has a state of type `E`, and the boxed values that it takes are of type `V`.
use Prim.Native.String.{String}
use flume_rs.Base.{Option, none, some}
use flume_rs.Core.Time.{EventTimestamp}
use flume_rs.Core.Record.{Bytes}
use flume_rs.Core.Result.{FlumeResult, Run, err, operator, return}
use flume_rs.Core.Timer.{TimerService}
use flume_rs.Core.Collector.{Collector}

pub record SideOutputEmitter (E V : Type 0) : Type 0 where
  pub emit : String → V → EventTimestamp → Option Bytes → Run E (Unit {0})

pub record ProcessContext (E : Type 0) : Type 0 where
  pub timestamp : EventTimestamp
  pub current_key : Option Bytes
  pub timer_service : TimerService
  pub side_outputs : Option E

module _ {E : Type 0} (timestamp : EventTimestamp) (key : Option Bytes)
    (timers : TimerService) where
  abbrev pub new : ProcessContext E
  new = record {
    timestamp = timestamp;
    current_key = key;
    timer_service = timers;
    side_outputs = none;
  }

  abbrev pub with_side_outputs : E → ProcessContext E
  with_side_outputs emitter = record {
    timestamp = timestamp;
    current_key = key;
    timer_service = timers;
    side_outputs = some emitter;
  }

-- The name that stands for a side output. The type of its values is that of the emitter.
pub record OutputTag : Type 0 where
  pub id : String

-- `ctx.side_output(&tag, value)`
module _ {E V : Type 0} (emitter : SideOutputEmitter E V) (tag : OutputTag) (value : V) where
  abbrev emit_on : ProcessContext E → Option E → FlumeResult (Unit {0}) × ProcessContext E
  emit_on ctx none = (err operator, ctx)
  emit_on ctx (some e) =
      let (r, e') = emitter.emit tag.id value ctx.timestamp ctx.current_key e in
      (r, record ctx { side_outputs = some e' })

  unfoldable pub side_output : Run (ProcessContext E) (Unit {0})
  side_output ctx = emit_on ctx ctx.side_outputs

pub record OnTimerContext : Type 0 where
  pub current_watermark : EventTimestamp
  pub timer_service : TimerService

-- A call of `process_element` or `on_timer` is lent a context and a collector.
abbrev pub Call : Type 0 → Type 0 → Type 0 → Type 0
Call P X C = Run (P × X × C) (Unit {0})

pub record ProcessFunction (P E C In Out : Type 0) : Type 0 where
  pub process_element : In → Collector C Out → Call P (ProcessContext E) C
  pub on_timer : EventTimestamp → Collector C Out → Call P OnTimerContext C

pub record KeyedProcessFunction (P E C In Out : Type 0) : Type 0 where
  pub process_element : Bytes → In → Collector C Out → Call P (ProcessContext E) C
  pub on_timer : EventTimestamp → Bytes → Collector C Out → Call P OnTimerContext C

pub record CoProcessFunction (P E C In1 In2 Out : Type 0) : Type 0 where
  pub process_element1 : In1 → Collector C Out → Call P (ProcessContext E) C
  pub process_element2 : In2 → Collector C Out → Call P (ProcessContext E) C
  pub on_timer : EventTimestamp → Collector C Out → Call P OnTimerContext C

-- The `on_timer` that the traits give: it does nothing.
module _ {P C Out : Type 0} where
  abbrev pub default_on_timer : EventTimestamp → Collector C Out → Call P OnTimerContext C
  default_on_timer timestamp out = return tt

  abbrev pub default_keyed_on_timer :
      EventTimestamp → Bytes → Collector C Out → Call P OnTimerContext C
  default_keyed_on_timer timestamp key out = return tt
