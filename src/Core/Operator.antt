-- ===== src/Core/Operator.antt =====
-- crates/flume-core/src/operator: the operators, one module for each file.
pub mod Keyed
pub mod Window
pub mod Join
pub mod Interval
pub mod Stateless
pub mod Process
