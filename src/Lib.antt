-- ===== src/Lib.antt =====
-- flume-rs is a stream processing engine. A source sends records, watermarks and checkpoint barriers
-- through operators; the runtime connects the operators by channels, merges inputs, tracks the
-- watermarks and aligns the barriers. This library models the parts that carry that logic and proves
-- what makes them correct.
--
-- The parts, the files that model them, and the code:
--   Base: lists, words of 64 bits, hash maps, ordered sets, and the order on keys that they use.
--   Core/Time, Core/Record, Core/Result, Core/Collector: crates/flume-core/src/time.rs, record.rs,
--     either.rs, error.rs, traits/operator.rs. A method on `&mut self` is a function from the state to
--     a result and a state (`Run`); an error ends it and keeps the state, as `?` does. A collector is a
--     record of its three methods, so a theorem holds for channels, ring buffers and the network.
--   Core/Window: crates/flume-core/src/window.rs. `tumbling_at` and `sliding_at` are the two
--     `assign_windows`, with `+` modulo 2 ^ 64 as a release build compiles it.
--   Core/Timer: crates/flume-core/src/timer.rs. `TimerQueue` holds two ordered sets;
--     `fire_event_time_up_to` splits one of them at a key.
--   Core/Operator: crates/flume-core/src/operator. Keyed holds what window.rs and join.rs both
--     declare, Window the operator of window.rs, Join the two of join.rs, Interval that of
--     interval_join.rs, Stateless those of map.rs, filter.rs and flat_map.rs, Process the three of
--     process.rs, whose functions see a context of Core/Process. They send into a collector, and the
--     keyed ones keep one entry for each key, or for each key and window.
--   Runtime/Watermark: crates/flume-runtime/src/watermark.rs, the minimum over the inputs.
--   Runtime/Merge: crates/flume-runtime/src/merge.rs. `Merge` holds the local variables of
--     `two_input_merge`, `round` is one pass of its loop, and a schedule says which branch of
--     `select!` wins. The operators of join.rs and interval_join.rs read what it sends.
--   Runtime/Aligner: crates/flume-runtime/src/checkpoint/aligner.rs. `drain` is phase 1 of `next`,
--     `next_multi` the loop of phase 2 on a schedule of the inputs that `recv_any` finds.
--   Runtime/RingBuffer: crates/flume-runtime/src/ring_buffer.rs. `Ring` holds the shared fields
--     and where either end stands; a schedule interleaves the steps of the two ends.
--   Runtime/Partition: crates/flume-runtime/src/partition.rs, which subtasks a record goes to.
--   Runtime/Dag: crates/flume-runtime/src/dag.rs. `visit` is the loop over the neighbours of a node,
--     `drain` the loop over the queue.
--   Runtime/Physical: crates/flume-runtime/src/physical.rs. `schedule` sorts the nodes with Dag, takes
--     the slots that `build_slot_queue` puts in order, and connects the subtasks (Physical/Edges).
--   Runtime/Coordinator: crates/flume-runtime/src/checkpoint/coordinator.rs, one checkpoint. It sends
--     the barriers that Merge aligns and waits for the operators.
--   State: crates/flume-state. A state is a mutex that its handle and the backend share: Memory has a
--     heap of mutexes and the handles, Memory/Backend the backend with its snapshots, Keyed a backend
--     for each key. Codec says what they take from the crate bitcode.
--   Network/Slots: crates/flume-network/src/slot_manager.rs.
--   Network/Resources: crates/flume-network/src/resource_manager.rs, who has registered and who is dead.
--     Its offers are what Physical schedules on.
--   Network/Frames: crates/flume-network/src/network_collector.rs and network_input.rs, the two ends
--     of a channel between task managers. Elements go in frames with a length in front.
--   Network/Exchange: crates/flume-network/src/exchange.rs, which hands the batches of Frames to their
--     channels and grants the credits that the collector of Frames spends.
--
-- Bounds and fuel: the loop of the sliding assigner has one unit of fuel for each slide up to the
-- timestamp and one more, and always ends before. The merger runs on a schedule; two choices for each
-- element of the inputs and one for each input are enough for its end. The topological order has one
-- unit of fuel for each node, since each pass takes one node from the queue. The round robin over
-- slots has one unit for each slot and one more. The reader of a payload has one for each byte, and
-- each pass takes four bytes at least. `next_power_of_two` doubles 64 times at most, and
-- wraps to 0 above 2 ^ 63.
--
-- Not modelled: the payload of errors, the bytes that serialisation gives, memory orderings weaker
-- than sequential consistency, the parking of a receiver, and the servers, connectors and graph
-- builders, which are input, output and glue.
pub mod Base
pub mod Core
pub mod Runtime
pub mod State
pub mod Network
