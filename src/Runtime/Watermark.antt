-- ===== src/Runtime/Watermark.antt =====
-- crates/flume-runtime/src/watermark.rs: the minimum of the watermarks of several inputs.
pub mod Minimum
mod Tests
use flume_rs.Base.{
  ℕ, List, [], ◌∷◌, Option, none, some, length, set, replicate, ltb, min, if◌then◌else◌,
}
use flume_rs.Core.Time.{EventTimestamp, timestamp_min}
use flume_rs.Core.Record.{Watermark}
use flume_rs.Core.Result.{Run, ok, panic}

pub record WatermarkTracker : Type 0 where
  pub input_watermarks : List EventTimestamp
  pub current_watermark : EventTimestamp

unfoldable pub new : ℕ → WatermarkTracker
new num_inputs = record {
  input_watermarks = replicate num_inputs timestamp_min;
  current_watermark = timestamp_min;
}

-- `iter().copied().min()`
unfoldable pub reduce_min : EventTimestamp → List EventTimestamp → EventTimestamp
reduce_min m [] = m
reduce_min m (t ∷ ts) = reduce_min (min m t) ts

abbrev pub minimum : List EventTimestamp → Option EventTimestamp
minimum [] = none
minimum (t ∷ ts) = some (reduce_min t ts)

abbrev pub min_or : Option EventTimestamp → EventTimestamp
min_or none = timestamp_min
min_or (some m) = m

abbrev pub advance : WatermarkTracker → EventTimestamp → Option Watermark × WatermarkTracker
advance t new_min =
    if ltb t.current_watermark new_min
    then (some (record { timestamp = new_min }), record t { current_watermark = new_min })
    else (none, t)

-- An index out of range panics.
unfoldable pub update : ℕ → Watermark → Run WatermarkTracker (Option Watermark)
update i w t =
    let inputs = set t.input_watermarks i w.timestamp in
    let (out, t') = advance (record t { input_watermarks = inputs }) (min_or (minimum inputs)) in
    if ltb i (length t.input_watermarks) then (ok out, t') else (panic, t)

abbrev pub current : WatermarkTracker → EventTimestamp
current t = t.current_watermark
