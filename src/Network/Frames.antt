-- ===== src/Network/Frames.antt =====
-- crates/flume-network/src/network_collector.rs and network_input.rs: the two ends of a network
-- channel. The sender of the channel is a parameter, `try_send`, on a state of type `D`; its result
-- is false when the channel is full or closed. `bitcode` is the codec of the stream elements.
pub mod Parse
pub mod RoundTrip
pub mod Unframed
mod Tests
use Prim.Native.String.{String}
use flume_rs.Base.{
  ℕ, zero, suc, ◌+◌, ◌-◌, ◌*◌, ◌/◌, ◌%◌, ◌^◌, List, [], ◌∷◌, ◌++◌, Option, none, some, Bool, true,
  false, length, take, drop, min, eqb, ltb, leb, if◌then◌else◌,
}
use flume_rs.Core.Record.{
  Bytes, Record, Watermark, CheckpointBarrier, StreamElement, rec, watermark, checkpoint_barrier,
}
use flume_rs.Core.Result.{Run, ok, err, channel_closed, serialization, on_first, ◌>>=◌, ◌>>◌}
use flume_rs.Core.Collector.{Collector}
use flume_rs.State.Codec.{Codec}
use flume_rs.State.Memory.Backend.{or_serialization}

pub record DataBatch : Type 0 where
  pub channel_id : String
  pub payload : Bytes
  pub record_count : ℕ
  pub is_barrier : Bool
  pub checkpoint_id : ℕ

pub record NetworkCollector : Type 0 where
  pub channel_id : String
  pub buffer : Bytes
  pub record_count : ℕ
  pub batch_size : ℕ
  pub credits : ℕ

abbrev pub new_collector : String → ℕ → NetworkCollector
new_collector channel_id batch_size = record {
  channel_id = channel_id;
  buffer = [];
  record_count = 0;
  batch_size = batch_size;
  credits = 0;
}

abbrev pub u32_max : ℕ
u32_max = 2 ^ 32 - 1

abbrev pub grant_credits : ℕ → NetworkCollector → NetworkCollector
grant_credits credits nc = record nc { credits = min (nc.credits + credits) u32_max }

-- `u32::to_le_bytes` and `u32::from_le_bytes`.
abbrev pub to_le_bytes : ℕ → Bytes
to_le_bytes n = n % 256 ∷ n / 256 % 256 ∷ n / 65536 % 256 ∷ n / 16777216 % 256 ∷ []

abbrev pub from_le_bytes : ℕ → ℕ → ℕ → ℕ → ℕ
from_le_bytes a b c d = a + 256 * b + 65536 * c + 16777216 * d

-- An element with its length in front, as `u32`.
abbrev pub frame : Bytes → Bytes
frame bytes = to_le_bytes (length bytes % 2 ^ 32) ++ bytes

module _ {D : Type 0} (try_send : DataBatch → D → Bool × D) where
  -- `try_send(batch).map_err(|_| FlumeError::ChannelClosed)`
  abbrev pub send : DataBatch → Run (NetworkCollector × D) (Unit {0})
  send batch (nc, d) =
      let (sent, d') = try_send batch d in (if sent then ok tt else err channel_closed, (nc, d'))

  abbrev pub data_batch : NetworkCollector → Bytes → ℕ → DataBatch
  data_batch nc payload records = record {
    channel_id = nc.channel_id;
    payload = payload;
    record_count = records;
    is_barrier = false;
    checkpoint_id = 0;
  }

  abbrev pub flush_data : Bytes → Run (NetworkCollector × D) (Unit {0})
  flush_data [] s = (ok tt, s)
  flush_data (x ∷ buffer) (nc, d) =
      if eqb nc.credits 0
      then (err channel_closed, (nc, d))
      else send (data_batch nc (x ∷ buffer) nc.record_count)
          (record nc { buffer = []; record_count = 0; credits = nc.credits - 1 }, d)

  unfoldable pub flush : Run (NetworkCollector × D) (Unit {0})
  flush (nc, d) = flush_data nc.buffer (nc, d)

module _ {D T : Type 0} (try_send : DataBatch → D → Bool × D)
    (bitcode : Codec (StreamElement T)) where
  abbrev pub serialized : StreamElement T → Run (NetworkCollector × D) Bytes
  serialized element = or_serialization (bitcode.serialize element)

  unfoldable pub serialize_element : StreamElement T → Run (NetworkCollector × D) (Unit {0})
  serialize_element element = serialized element >>= λ bytes.
      on_first (λ nc. record nc { buffer = nc.buffer ++ frame bytes })

  -- The flush once the batch is full.
  abbrev pub flush_if_full : Run (NetworkCollector × D) (Unit {0})
  flush_if_full s = if leb s.0.batch_size s.0.record_count then flush try_send s else (ok tt, s)

  unfoldable pub collect : Record T → Run (NetworkCollector × D) (Unit {0})
  collect r = do
    serialize_element (rec r)
    on_first (λ nc. record nc { record_count = (nc.record_count + 1) % 2 ^ 32 })
    flush_if_full

  -- A watermark takes a credit; its bytes go out as they are.
  abbrev pub send_watermark : Bytes → Run (NetworkCollector × D) (Unit {0})
  send_watermark bytes (nc, d) =
      if ltb 0 nc.credits
      then send try_send (data_batch try_send nc bytes 0)
          (record nc { credits = nc.credits - 1 }, d)
      else (err channel_closed, (nc, d))

  unfoldable pub collect_watermark : Watermark → Run (NetworkCollector × D) (Unit {0})
  collect_watermark w = flush try_send >> serialized (watermark w) >>= send_watermark

  abbrev pub barrier_batch : NetworkCollector → CheckpointBarrier → DataBatch
  barrier_batch nc barrier = record {
    channel_id = nc.channel_id;
    payload = [];
    record_count = 0;
    is_barrier = true;
    checkpoint_id = barrier.checkpoint_id;
  }

  unfoldable pub collect_barrier : CheckpointBarrier → Run (NetworkCollector × D) (Unit {0})
  collect_barrier barrier = flush try_send >> λ s. send try_send (barrier_batch s.0 barrier) s

  abbrev pub network_collector : Collector (NetworkCollector × D) T
  network_collector = record {
    collect = collect;
    collect_watermark = collect_watermark;
    collect_barrier = collect_barrier;
  }

-- The batches that will still arrive before the channel closes, and the elements at hand.
pub record NetworkInput (T : Type 0) : Type 0 where
  pub batch_rx : List DataBatch
  pub element_buffer : List (StreamElement T)

-- `CheckpointBarrier::new(batch.checkpoint_id, EventTimestamp::new(0))`
abbrev pub received_barrier : {T : Type 0} → ℕ → StreamElement T
received_barrier id = checkpoint_barrier (record { checkpoint_id = id; timestamp = 0 })

module _ {T : Type 0} (bitcode : Codec (StreamElement T)) where
  -- An element that cannot be read is passed over, with a warning.
  abbrev pub decoded : Bytes → List (StreamElement T)
  decoded bytes = elim (bitcode.deserialize bytes) [ none ↦ [] | some x ↦ x ∷ [] ]

  -- The payload from the offset on; each pass reads the four bytes of a length at least.
  unfoldable pub parse : ℕ → Bytes → List (StreamElement T)
  parse (suc fuel) (a ∷ b ∷ c ∷ d ∷ rest) =
      let len = from_le_bytes a b c d in
      let tail = parse fuel (drop len rest) in
      if ltb (length rest) len then [] else decoded (take len rest) ++ tail
  parse (suc fuel) (a ∷ b ∷ c ∷ []) = []
  parse (suc fuel) (a ∷ b ∷ []) = []
  parse (suc fuel) (a ∷ []) = []
  parse (suc fuel) [] = []
  parse zero payload = []

  unfoldable pub recv_from :
      List (StreamElement T) → List DataBatch → Option (StreamElement T) × NetworkInput T
  recv_from (x ∷ elements) batches =
      (some x, record { batch_rx = batches; element_buffer = elements })
  recv_from [] [] = (none, record { batch_rx = []; element_buffer = [] })
  recv_from [] (batch ∷ batches) =
      let next = recv_from (parse (length batch.payload) batch.payload) batches in
      if batch.is_barrier
      then (
        some (received_barrier batch.checkpoint_id),
        record { batch_rx = batches; element_buffer = [] },
      )
      else next

  abbrev pub recv : NetworkInput T → Option (StreamElement T) × NetworkInput T
  recv input = recv_from input.element_buffer input.batch_rx
