-- ===== src/Network.antt =====
-- crates/flume-network: the slots of a task manager.
pub mod Slots
pub mod Frames
pub mod Resources
pub mod Exchange
