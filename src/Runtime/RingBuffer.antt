-- ===== src/Runtime/RingBuffer.antt =====
-- crates/flume-runtime/src/ring_buffer.rs: the single-producer single-consumer ring. The two ends
-- run at once: each step below is what one end does between two accesses of shared memory, and a
-- schedule interleaves the steps in any order. The accesses are read as sequentially consistent.
-- A slot is `none` while it is uninitialised. `permit` is the state of `tokio::sync::Notify`, which
-- keeps one wake-up for a consumer that is not waiting.
pub mod Slots
pub mod Valid
pub mod Sends
pub mod Receives
pub mod Fifo
mod Tests
use Prim.Native.Nat.{bit_and}
use flume_rs.Base.{
  ℕ, zero, suc, ◌-◌, ◌*◌, ◌%◌, ◌^◌, List, [], ◌∷◌, ◌++◌, Option, none, some, ltb, leb, eqb, max,
  if◌then◌else◌, Bool, true, false, add64, sub64,
}

-- `usize::next_power_of_two`: double from 1 on until the capacity is reached. The first argument is
-- the doublings that are left; the second the power so far. Above 2 ^ 63 the power is 2 ^ 64, which
-- a release build wraps to 0.
unfoldable pub double_until : ℕ → ℕ → ℕ → ℕ
double_until zero p capacity = p
double_until (suc n) p capacity = double_until n (if ltb p capacity then 2 * p else p) capacity

unfoldable pub next_power_of_two : ℕ → ℕ
unfolding double_until
next_power_of_two capacity = double_until 64 1 capacity % 2 ^ 64

-- Where the producer stands in `try_send`: outside, before it reloads `read_seq`, before it writes
-- the slot, or before it publishes `write_seq` and perhaps notifies.
pub data Sending (T : Type 0) : Type 0 where
  outside : Sending T
  reload : T → Sending T
  write : T → Sending T
  publish : T → Sending T

-- The same for the consumer in `try_recv`; `broken` after it has read an uninitialised slot.
pub data Receiving (T : Type 0) : Type 0 where
  outside : Receiving T
  reload : Receiving T
  take : Receiving T
  advance : T → Receiving T
  broken : Receiving T

pub record Ring (T : Type 0) : Type 0 where
  pub slots : ℕ → Option T
  pub mask : ℕ
  pub write_seq : ℕ
  pub read_seq : ℕ
  pub cached_read_seq : ℕ
  pub cached_write_seq : ℕ
  pub closed : Bool
  pub permit : Bool
  pub sending : Sending T
  pub receiving : Receiving T

-- What a step shows outside: the end of a `try_send` or of a `try_recv`.
pub data Event (T : Type 0) : Type 0 where
  quiet : Event T
  sent : T → Event T
  full : T → Event T
  received : T → Event T
  empty : Event T

module _ {T : Type 0} where
  unfoldable pub ring_buffer : ℕ → Ring T
  ring_buffer capacity = record {
    slots = λ i. none;
    mask = max (next_power_of_two capacity) 2 - 1;
    write_seq = 0;
    read_seq = 0;
    cached_read_seq = 0;
    cached_write_seq = 0;
    closed = false;
    permit = false;
    sending = Sending.outside;
    receiving = Receiving.outside;
  }

  abbrev pub index : Ring T → ℕ → ℕ
  index r seq = bit_and seq r.mask

  abbrev pub put : (ℕ → Option T) → ℕ → Option T → ℕ → Option T
  put slots i v j = if eqb i j then v else slots j

  -- `try_send(value)` begins: with the cached `read_seq`.
  unfoldable pub begin_send : T → Ring T → Event T × Ring T
  begin_send value r =
      if ltb r.mask (sub64 r.write_seq r.cached_read_seq)
      then (quiet, record r { sending = Sending.reload value })
      else (quiet, record r { sending = Sending.write value })

  reloaded : T → Ring T → Event T × Ring T
  reloaded value r =
      if ltb r.mask (sub64 r.write_seq r.cached_read_seq)
      then (full value, record r { sending = Sending.outside })
      else (quiet, record r { sending = Sending.write value })

  -- The next step of a `try_send` that has begun.
  unfoldable pub step_send : Sending T → Ring T → Event T × Ring T
  unfolding reloaded
  step_send Sending.outside r = (quiet, r)
  step_send (Sending.reload value) r = reloaded value (record r { cached_read_seq = r.read_seq })
  step_send (Sending.write value) r = (
    quiet,
    record r {
      slots = put r.slots (index r r.write_seq) (some value);
      sending = Sending.publish value;
    },
  )
  step_send (Sending.publish value) r = (
    sent value,
    record r {
      write_seq = add64 r.write_seq 1;
      permit = if eqb r.write_seq r.cached_read_seq then true else r.permit;
      sending = Sending.outside;
    },
  )

  -- `try_recv()` begins: with the cached `write_seq`.
  unfoldable pub begin_recv : Ring T → Event T × Ring T
  begin_recv r =
      if leb r.cached_write_seq r.read_seq
      then (quiet, record r { receiving = Receiving.reload })
      else (quiet, record r { receiving = Receiving.take })

  refreshed : Ring T → Event T × Ring T
  refreshed r =
      if leb r.cached_write_seq r.read_seq
      then (empty, record r { receiving = Receiving.outside })
      else (quiet, record r { receiving = Receiving.take })

  -- `assume_init_read` moves the value out.
  take_slot : Option T → Ring T → Event T × Ring T
  take_slot none r = (quiet, record r { receiving = Receiving.broken })
  take_slot (some value) r = (
    quiet,
    record r { slots = put r.slots (index r r.read_seq) none; receiving = Receiving.advance value },
  )

  unfoldable pub step_recv : Receiving T → Ring T → Event T × Ring T
  unfolding refreshed take_slot
  step_recv Receiving.outside r = (quiet, r)
  step_recv Receiving.reload r = refreshed (record r { cached_write_seq = r.write_seq })
  step_recv Receiving.take r = take_slot (r.slots (index r r.read_seq)) r
  step_recv (Receiving.advance value) r =
      (received value, record r { read_seq = add64 r.read_seq 1; receiving = Receiving.outside })
  step_recv Receiving.broken r = (quiet, r)

  -- An end that is outside begins its next call; one that is inside goes on.
  abbrev pub producer : Sending T → T → Ring T → Event T × Ring T
  producer Sending.outside value r = begin_send value r
  producer s value r = step_send s r

  abbrev pub consumer : Receiving T → Ring T → Event T × Ring T
  consumer Receiving.outside r = begin_recv r
  consumer s r = step_recv s r

-- Whose turn it is; the producer brings the value for its next call.
pub data Turn (T : Type 0) : Type 0 where
  produces : T → Turn T
  consumes : Turn T

module _ {T : Type 0} where
  unfoldable pub turn : Turn T → Ring T → Event T × Ring T
  turn (produces value) r = producer r.sending value r
  turn consumes r = consumer r.receiving r

  unfoldable pub run : List (Turn T) → Ring T → List (Event T) × Ring T
  run [] r = ([], r)
  run (t ∷ ts) r = let (e, r') = turn t r in let (es, r'') = run ts r' in (e ∷ es, r'')
