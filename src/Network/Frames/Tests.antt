-- ===== src/Network/Frames/Tests.antt =====
-- The theorems on network_collector.rs and network_input.rs at two records, with a codec that writes
-- a tag and the fields.
use flume_rs.Base.{ℕ, ◌+◌, ◌≡◌, refl, List, [], ◌∷◌, ◌++◌, map, Option, none, some, length, arith}
use flume_rs.Core.Record.{
  Bytes, Record, Watermark, CheckpointBarrier, StreamElement, rec, watermark, checkpoint_barrier,
  new,
}
use flume_rs.Core.Result.{ok, for_each, ◌>>◌}
use flume_rs.State.Codec.{Codec}
use flume_rs.Network.Frames.{
  DataBatch, NetworkCollector, new_collector, grant_credits, collect, collect_watermark,
  collect_barrier, received_barrier,
}
use flume_rs.Network.Frames.Parse.{receive}
use flume_rs.Network.Frames.RoundTrip.{keep, receive-collect}
use flume_rs.Network.Frames.Unframed.{watermark_lost}

abbrev write_element : StreamElement ℕ → Bytes
write_element (rec r) = 0 ∷ r.value ∷ r.timestamp ∷ []
write_element (watermark w) = 1 ∷ w.timestamp ∷ []
write_element (checkpoint_barrier b) = 2 ∷ b.checkpoint_id ∷ b.timestamp ∷ 0 ∷ []

abbrev read_element : Bytes → Option (StreamElement ℕ)
read_element (tag ∷ v ∷ t ∷ []) = some (rec (new v t))
read_element (tag ∷ t ∷ []) = some (watermark (record { timestamp = t }))
read_element (tag ∷ id ∷ t ∷ end ∷ []) =
    some (checkpoint_barrier (record { checkpoint_id = id; timestamp = t }))
read_element _ = none

abbrev codec : Codec (StreamElement ℕ)
codec = record { serialize = λ x. some (write_element x); deserialize = read_element }

abbrev two_records : List (Record ℕ)
two_records = new 42 100 ∷ new 43 200 ∷ []

abbrev barrier : CheckpointBarrier
barrier = record { checkpoint_id = 7; timestamp = 300 }

abbrev with_credits : NetworkCollector
with_credits = grant_credits 3 (new_collector "channel" 2)

receive-collect_example :
    (nc' : NetworkCollector) × (batches : List DataBatch) × ((for_each
            (collect keep codec)
            two_records
          >> collect_barrier keep codec barrier)
        (with_credits, [])
      ≡ (ok tt, (nc', batches)))
    × (receive codec (length two_records + 2) (record { batch_rx = batches; element_buffer = [] })
        ≡ map (λ r. rec r) two_records ++ received_barrier 7 ∷ [])
receive-collect_example =
    receive-collect codec two_records barrier with_credits
      (
        (write_element (rec (new 42 100)), refl, omega arith, refl),
        ((write_element (rec (new 43 200)), refl, omega arith, refl), tt),
      )
      refl (omega arith)

abbrev at_five : Watermark
at_five = record { timestamp = 5 }

watermark_lost_example :
    (nc' : NetworkCollector) × (batches : List DataBatch) × (collect_watermark keep codec at_five
        (with_credits, [])
      ≡ (ok tt, (nc', batches)))
    × (receive codec 1 (record { batch_rx = batches; element_buffer = [] }) ≡ [])
watermark_lost_example =
    watermark_lost codec at_five (1 ∷ 5 ∷ []) with_credits refl tt refl (omega arith)
