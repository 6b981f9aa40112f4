-- ===== src/Core/Time.antt =====
-- crates/flume-core/src/time.rs. A `u64` of milliseconds is a number; that it is below 2 ^ 64 is
-- stated where it matters. A `Duration` is its whole milliseconds, a `u128` in the source.
use flume_rs.Base.{ℕ, ◌%◌, ◌^◌, u64_max, saturating_add, saturating_sub}

abbrev pub EventTimestamp : Type 0
EventTimestamp = ℕ

abbrev pub Duration : Type 0
Duration = ℕ

abbrev pub timestamp_min : EventTimestamp
timestamp_min = 0

abbrev pub timestamp_max : EventTimestamp
timestamp_max = u64_max

-- `duration.as_millis() as u64`
abbrev pub as_millis : Duration → ℕ
as_millis d = d % 2 ^ 64

abbrev pub add_duration : EventTimestamp → Duration → EventTimestamp
add_duration t d = saturating_add t (as_millis d)

abbrev pub sub_duration : EventTimestamp → Duration → EventTimestamp
sub_duration t d = saturating_sub t (as_millis d)
