-- ===== src/Network/Frames/Unframed.antt =====
-- A watermark sent by a collector of crates/flume-network/src/network_collector.rs.
use mathlib.Core.List.{append-nil}
use flume_rs.Base.{
  ℕ, zero, suc, ◌-◌, ◌<◌, ◌≡◌, refl, ap, ◌∙◌, List, [], ◌∷◌, some, length, lt→ltb, arith,
}
use flume_rs.Core.Record.{Bytes, Watermark, StreamElement, watermark}
use flume_rs.Core.Result.{ok, and_then}
use flume_rs.State.Codec.{Codec}
use flume_rs.State.Memory.Backend.{or_serialization}
use flume_rs.Network.Frames.{
  DataBatch, NetworkCollector, flush, flush_data, send_watermark, data_batch, collect_watermark,
  parse, from_le_bytes,
}
use flume_rs.Network.Frames.Parse.{elements_of, receive, receive-view}
use flume_rs.Network.Frames.RoundTrip.{keep}

-- The bytes do not begin with a frame: there are less than four, or the first four, read as a
-- length, reach beyond the end.
abbrev pub NoFrame : Bytes → Type 0
NoFrame (a ∷ b ∷ c ∷ d ∷ rest) = length rest < from_le_bytes a b c d
NoFrame _ = Unit

module _ {T : Type 0} (bitcode : Codec (StreamElement T)) where
  parse-NoFrame : (fuel : ℕ) (bytes : Bytes) → NoFrame bytes → parse bitcode fuel bytes ≡ []
  unfolding parse
  parse-NoFrame zero bytes h = refl
  parse-NoFrame (suc fuel) [] h = refl
  parse-NoFrame (suc fuel) (a ∷ []) h = refl
  parse-NoFrame (suc fuel) (a ∷ b ∷ []) h = refl
  parse-NoFrame (suc fuel) (a ∷ b ∷ c ∷ []) h = refl
  parse-NoFrame (suc fuel) (a ∷ b ∷ c ∷ d ∷ rest) h =
      rw (lt→ltb (length rest) (from_le_bytes a b c d) h) refl

  -- With an empty buffer, a credit at least, and a channel that accepts each batch,
  -- `collect_watermark` reports success. The watermark goes out without a length in front: where its
  -- encoding does not happen to begin with a frame, an input that receives what was sent on the
  -- channel gives no element, and the watermark is lost.
  pub watermark_lost :
      (w : Watermark) (bytes : Bytes) (nc : NetworkCollector)
      → bitcode.serialize (watermark w) ≡ some bytes
      → NoFrame bytes
      → nc.buffer ≡ []
      → 0 < nc.credits
      → (nc' : NetworkCollector) × (batches : List DataBatch) × (collect_watermark keep bitcode w
            (nc, [])
          ≡ (ok tt, (nc', batches)))
        × (receive bitcode 1 (record { batch_rx = batches; element_buffer = [] }) ≡ [])
  unfolding collect_watermark flush
  watermark_lost w bytes nc e h empty c =
      let batch = data_batch keep nc bytes 0 in
      let read = append-nil (elements_of bitcode batch) ∙ parse-NoFrame (length bytes) bytes h in
      (
        record nc { credits = nc.credits - 1 },
        batch ∷ [],
        ap
              (λ x.
                and_then
                  (and_then (flush_data keep x (nc, []))
                    (λ _. or_serialization (bitcode.serialize (watermark w))))
                  (send_watermark keep bitcode))
              empty
            ∙ ap (λ o. and_then (or_serialization o (nc, [])) (send_watermark keep bitcode)) e
            ∙ rw (lt→ltb 0 nc.credits c) refl,
        receive-view bitcode 1 (record { batch_rx = batch ∷ []; element_buffer = [] })
              (omega (arith, ap length read))
            ∙ read,
      )
