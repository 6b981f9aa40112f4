-- ===== src/Core.antt =====
-- crates/flume-core: the data that flows between operators, time, windows, timers and operators.
pub mod Time
pub mod Record
pub mod Result
pub mod Collector
pub mod Window
pub mod Timer
pub mod Process
pub mod Operator
