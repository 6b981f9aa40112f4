-- ===== src/Core/Window.antt =====
-- crates/flume-core/src/window.rs: windows, the two assigners, the trigger and the interface of
-- aggregate functions. `none` is a panic: a division by a size or slide of zero.
pub mod Sliding
pub mod Tumbling
mod Tests
use mathlib.Core.List.{reverse}
use mathlib.Core.Option
use flume_rs.Base.{
  ℕ, zero, suc, ◌-◌, ◌*◌, ◌/◌, Bool, ◌&&◌, List, [], ◌∷◌, ◌++◌, Option, none, some, ltb, leb, eqb,
  if◌then◌else◌, add64, Eq, ◌≡◌, ◌↔◌, true, arith, eqb_iff,
}
use flume_rs.Core.Time.{EventTimestamp, Duration, as_millis}

pub record Window : Type 0 where
  pub start : EventTimestamp
  pub end : EventTimestamp

abbrev pub contains : Window → EventTimestamp → Bool
contains w t = leb w.start t && ltb t w.end

-- The derived `==`.
abbrev pub window_beq : Window → Window → Bool
window_beq v w = eqb v.start w.start && eqb v.end w.end

pub window_beq_iff : (v w : Window) → (window_beq v w ≡ true) ↔ (v ≡ w)
window_beq_iff v w = ground (arith, eqb_iff v.start w.start, eqb_iff v.end w.end)

instance abbrev pub window_eq : Eq Window
window_eq = record { equals = window_beq; equals_iff = window_beq_iff }

-- The trait `WindowAssigner`, and its two implementations.
abbrev pub WindowAssigner : Type 0
WindowAssigner = EventTimestamp → Option (List Window)

unfoldable pub tumbling_at : ℕ → WindowAssigner
tumbling_at size_ms ts =
    let start = (ts / size_ms) * size_ms in
    if eqb size_ms 0 then none else some (record { start = start; end = add64 start size_ms } ∷ [])

unfoldable pub tumbling : Duration → WindowAssigner
unfolding tumbling_at
tumbling size = tumbling_at (as_millis size)

-- The `loop` of the sliding assigner, with fuel; `none` means that the fuel ran out.
unfoldable pub walk : ℕ → ℕ → ℕ → EventTimestamp → ℕ → List Window → Option (List Window)
walk zero size_ms slide_ms ts start windows = none
walk (suc fuel) size_ms slide_ms ts start windows =
    let end = add64 start size_ms in
    let pushed =
      if ltb ts end then windows ++ record { start = start; end = end } ∷ [] else windows in
    let back = start - slide_ms in
    let rest = walk fuel size_ms slide_ms ts back pushed in
    if ltb start slide_ms
    then some pushed
    else if leb (add64 back size_ms) ts
    then some pushed
    else rest

unfoldable pub sliding_at : ℕ → ℕ → WindowAssigner
sliding_at size_ms slide_ms ts =
    if eqb slide_ms 0
    then none
    else Option.map reverse
        (walk (suc (ts / slide_ms)) size_ms slide_ms ts ((ts / slide_ms) * slide_ms) [])

unfoldable pub sliding : Duration → Duration → WindowAssigner
unfolding sliding_at
sliding size slide = sliding_at (as_millis size) (as_millis slide)

pub data TriggerResult : Type 0 where
  continue fire purge fire_and_purge : TriggerResult

-- The trait `Trigger`: its two methods. A trigger of the source may keep state of its own; the
-- only one there has none.
pub record Trigger : Type 0 where
  pub on_element : EventTimestamp → Window → TriggerResult
  pub on_event_time : EventTimestamp → Window → TriggerResult

abbrev pub event_time_trigger : Trigger
event_time_trigger = record {
  on_element = λ t w. continue;
  on_event_time = λ watermark w. if leb w.end watermark then fire_and_purge else continue;
}

-- The trait `AggregateFunction`.
pub record AggregateFunction (In Acc Out : Type 0) : Type 0 where
  pub create_accumulator : Acc
  pub add : Acc → In → Acc
  pub get_result : Acc → Out
  pub merge : Acc → Acc → Acc
