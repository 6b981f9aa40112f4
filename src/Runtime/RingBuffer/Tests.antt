-- ===== src/Runtime/RingBuffer/Tests.antt =====
-- The theorem on ring_buffer.rs at a ring of two slots.
use flume_rs.Base.{
  ℕ, ◌+◌, ◌^◌, ◌≤◌, ◌≡◌, ◌≢◌, refl, List, [], ◌∷◌, length, take, flat_map, max, arith,
}
use flume_rs.Runtime.RingBuffer.{
  double_until, next_power_of_two, Receiving, Turn, produces, consumes, ring_buffer, turn, run,
  begin_send, step_send, begin_recv, step_recv,
}
use flume_rs.Runtime.RingBuffer.Valid.{sent_by, received_by}
use flume_rs.Runtime.RingBuffer.Fifo.{ring_is_fifo}

-- The producer begins, the consumer looks in between, and both go on.
abbrev schedule : List (Turn ℕ)
schedule =
    produces 5
    ∷ consumes
    ∷ produces 5
    ∷ consumes
    ∷ produces 5
    ∷ consumes
    ∷ consumes
    ∷ consumes
    ∷ produces 6
    ∷ consumes
    ∷ []

ring_is_fifo_example :
    let (events, r) = run schedule (ring_buffer 2) in
    let all_sent = flat_map sent_by events in
    let all_received = flat_map received_by events in
    (all_received ≡ take (length all_received) all_sent)
    × (r.receiving ≢ Receiving.broken)
    × (length all_sent ≤ length all_received + max (next_power_of_two 2) 2)
    × (2 ≤ 2 ^ 63 → 2 ≤ max (next_power_of_two 2) 2)
ring_is_fifo_example = ring_is_fifo 2 schedule (omega arith)

received_run : flat_map received_by (run schedule (ring_buffer 2)).0 ≡ 5 ∷ []
unfolding run turn ring_buffer begin_send step_send begin_recv step_recv double_until
    next_power_of_two
received_run = refl

-- Above 2 ^ 63 the capacity wraps, and the ring has two slots.
wrapped_run : max (next_power_of_two (2 ^ 63 + 1)) 2 ≡ 2
unfolding next_power_of_two double_until
wrapped_run = refl
