-- ===== src/Network/Frames/RoundTrip.antt =====
-- Records sent by a collector of crates/flume-network/src/network_collector.rs and received by an
-- input of network_input.rs.
use mathlib.Core.List.{append_assoc, append-nil}
use flume_rs.Base.{
  ℕ, suc, ◌+◌, ◌-◌, ◌%◌, ◌^◌, ◌≤◌, ◌<◌, ◌≡◌, refl, sym, ap, subst, ◌∙◌, List, [], ◌∷◌, ◌++◌, map,
  flat_map, some, Bool, true, false, length, length-append, All, All-append, eqb, leb, arith,
  Bool-cases, inl, inr,
}
use flume_rs.Core.Record.{Bytes, Record, CheckpointBarrier, StreamElement, rec}
use flume_rs.Core.Result.{FlumeResult, ok, for_each, and_then, on_first, ◌>>◌}
use flume_rs.State.Memory.Backend.{or_serialization}
use flume_rs.State.Codec.{Codec}
use flume_rs.Network.Frames.{
  DataBatch, NetworkCollector, frame, flush_data, flush, send, data_batch, serialize_element,
  flush_if_full, collect, collect_barrier, barrier_batch, parse, received_barrier,
}
use flume_rs.Network.Frames.Parse.{
  Faithful, frames, written, parse_payload, elements_of, receive, receive-view,
}

-- A channel with room for every batch.
abbrev pub keep : DataBatch → List DataBatch → Bool × List DataBatch
keep batch batches = (true, batches ++ batch ∷ [])

flat_map-append :
    {A B : Type 0} (f : A → List B) (xs ys : List A)
    → flat_map f (xs ++ ys) ≡ flat_map f xs ++ flat_map f ys
flat_map-append f [] ys = refl
flat_map-append f (x ∷ xs) ys =
    ap (λ zs. f x ++ zs) (flat_map-append f xs ys)
    ∙ sym (append_assoc (f x) (flat_map f xs) (flat_map f ys))

pos : (n : ℕ) → 0 < n → eqb n 0 ≡ false
pos n h = ground arith

module _ {T : Type 0} (bitcode : Codec (StreamElement T)) where
  abbrev State : Type 0
  State = NetworkCollector × List DataBatch

  abbrev recs : List (Record T) → List (StreamElement T)
  recs rs = map (λ r. rec r) rs

  recs-append_one :
      (rs : List (Record T)) (r : Record T) → recs (rs ++ r ∷ []) ≡ recs rs ++ rec r ∷ []
  recs-append_one [] r = refl
  recs-append_one (x ∷ rs) r = ap (◌∷◌ (rec x)) (recs-append_one rs r)

  length-recs : (rs : List (Record T)) → length (recs rs) ≡ length rs
  length-recs [] = refl
  length-recs (r ∷ rs) = ap suc (length-recs rs)

  frames-append_one :
      (xs : List (StreamElement T)) (x : StreamElement T)
      → frames bitcode (xs ++ x ∷ []) ≡ frames bitcode xs ++ written bitcode (bitcode.serialize x)
  frames-append_one [] x = append-nil (written bitcode (bitcode.serialize x))
  frames-append_one (y ∷ xs) x =
      let w = written bitcode (bitcode.serialize y) in
      ap (λ z. w ++ z) (frames-append_one xs x)
      ∙ sym (append_assoc w (frames bitcode xs) (written bitcode (bitcode.serialize x)))

  -- The batches sent and the buffer hold, in frames, the records collected.
  abbrev Holds : List (Record T) → State → Type 0
  Holds done (nc, ds) =
      (ps : List (StreamElement T)) × (nc.buffer ≡ frames bitcode ps)
      × (flat_map (elements_of bitcode) ds ++ ps ≡ recs done)
      × All (Faithful bitcode) ps

  -- A flush with a credit sends the buffer, and uses one credit at most.
  abbrev Flushed : List (Record T) → State → Type 0
  Flushed done (nc, ds) =
      (nc' : NetworkCollector) × (ds' : List DataBatch) × (flush keep (nc, ds)
        ≡ (ok tt, (nc', ds')))
      × (nc'.buffer ≡ [])
      × (flat_map (elements_of bitcode) ds' ≡ recs done)
      × (nc.credits ≤ nc'.credits + 1)

  in_buffer :
      (nc : NetworkCollector) (ps : List (StreamElement T)) (buffer : Bytes)
      → nc.buffer ≡ buffer
      → nc.buffer ≡ frames bitcode ps
      → All (Faithful bitcode) ps
      → parse bitcode (length buffer) buffer ≡ ps
  in_buffer nc ps buffer e q a =
      ap (λ x. parse bitcode (length x) x) (sym e ∙ q) ∙ parse_payload bitcode ps a

  flush_lem :
      (done : List (Record T)) (nc : NetworkCollector) (ds : List DataBatch) (buffer : Bytes)
      → nc.buffer ≡ buffer
      → Holds done (nc, ds)
      → 0 < nc.credits
      → Flushed done (nc, ds)
  unfolding flush parse
  flush_lem done nc ds [] e (ps, q, v, a) c =
      let p = in_buffer nc ps [] e q a in
      (
        nc,
        ds,
        ap (λ x. flush_data keep x (nc, ds)) e,
        e,
        sym (append-nil (flat_map (elements_of bitcode) ds))
            ∙ ap (λ x. flat_map (elements_of bitcode) ds ++ x) p
            ∙ v,
        omega arith,
      )
  flush_lem done nc ds (x ∷ buffer) e (ps, q, v, a) c =
      let p = in_buffer nc ps (x ∷ buffer) e q a in
      (
        record nc { buffer = []; record_count = 0; credits = nc.credits - 1 },
        ds ++ data_batch keep nc (x ∷ buffer) nc.record_count ∷ [],
        ap (λ x. flush_data keep x (nc, ds)) e ∙ rw (pos nc.credits c) refl,
        refl,
        flat_map-append (elements_of bitcode) ds
              (data_batch keep nc (x ∷ buffer) nc.record_count ∷ [])
            ∙ ap (λ y. flat_map (elements_of bitcode) ds ++ y)
                (append-nil (parse bitcode (length (x ∷ buffer)) (x ∷ buffer)) ∙ p)
            ∙ v,
        omega (arith, c),
      )

  abbrev Collected : List (Record T) → ℕ → FlumeResult (Unit {0}) × State → Type 0
  Collected done credits t =
      (nc' : NetworkCollector) × (ds' : List DataBatch) × (t ≡ (ok tt, (nc', ds')))
      × Holds done (nc', ds')
      × (credits ≤ nc'.credits + 1)

  full_lem :
      (done : List (Record T)) (nc : NetworkCollector) (ds : List DataBatch)
      → Holds done (nc, ds)
      → 0 < nc.credits
      → Collected done nc.credits (flush_if_full keep bitcode (nc, ds))
  full_lem done nc ds h c = elim (Bool-cases (leb nc.batch_size nc.record_count)) [
    | inl q ↦
        let (nc', ds', run, empty, v, more) = flush_lem done nc ds nc.buffer refl h c in
        (
          nc',
          ds',
          rw q run,
          ([], empty, append-nil (flat_map (elements_of bitcode) ds') ∙ v, tt),
          more,
        )
    | inr q ↦ (nc, ds, rw q refl, h, omega arith)
  ]

  -- The state after the record is in the buffer.
  abbrev buffered : NetworkCollector → Bytes → NetworkCollector
  buffered nc bytes = record nc {
    buffer = nc.buffer ++ frame bytes;
    record_count = (nc.record_count + 1) % 2 ^ 32;
  }

  buffered-Holds :
      (done : List (Record T)) (r : Record T) (nc : NetworkCollector) (ds : List DataBatch)
      (bytes : Bytes)
      → bitcode.serialize (rec r) ≡ some bytes
      → Faithful bitcode (rec r)
      → Holds done (nc, ds)
      → Holds (done ++ r ∷ []) (buffered nc bytes, ds)
  buffered-Holds done r nc ds bytes e f (ps, q, v, a) = (
    ps ++ rec r ∷ [],
    ap (λ x. x ++ frame bytes) q
        ∙ ap (λ o. frames bitcode ps ++ written bitcode o) (sym e)
        ∙ sym (frames-append_one ps (rec r)),
    sym (append_assoc (flat_map (elements_of bitcode) ds) ps (rec r ∷ []))
        ∙ ap (λ x. x ++ rec r ∷ []) v
        ∙ sym (recs-append_one done r),
    All-append _ ps (rec r ∷ []) a (f, tt),
  )

  collect_lem :
      (done : List (Record T)) (r : Record T) (nc : NetworkCollector) (ds : List DataBatch)
      → Faithful bitcode (rec r)
      → Holds done (nc, ds)
      → 0 < nc.credits
      → Collected (done ++ r ∷ []) nc.credits (collect keep bitcode r (nc, ds))
  unfolding collect serialize_element
  collect_lem done r nc ds f h c =
      let (bytes, e, small, back) = f in
      let (nc', ds', run, holds, more) =
        full_lem (done ++ r ∷ []) (buffered nc bytes) ds (buffered-Holds done r nc ds bytes e f h)
          c in
      (
        nc',
        ds',
        ap
              (λ o.
                and_then
                  (and_then (or_serialization o (nc, ds))
                    (λ b. on_first (λ n. record n { buffer = n.buffer ++ frame b })))
                  (λ _.
                    on_first (λ n. record n { record_count = (n.record_count + 1) % 2 ^ 32 })
                    >> flush_if_full keep bitcode))
              e
            ∙ run,
        holds,
        more,
      )

  -- All records of a list, on a credit for each.
  collect_each :
      (done rs : List (Record T)) (nc : NetworkCollector) (ds : List DataBatch)
      → All (λ r. Faithful bitcode (rec r)) rs
      → Holds done (nc, ds)
      → length rs < nc.credits
      → (nc' : NetworkCollector) × (ds' : List DataBatch) × (for_each
            (collect keep bitcode)
            rs
            (nc, ds)
          ≡ (ok tt, (nc', ds')))
        × Holds (done ++ rs) (nc', ds')
        × (0 < nc'.credits)
  unfolding for_each
  collect_each done [] nc ds a h c =
      (nc, ds, refl, subst (λ x. Holds x (nc, ds)) (sym (append-nil done)) h, omega (arith, c))
  collect_each done (r ∷ rs) nc ds a h c =
      let (nc1, ds1, run1, h1, more) = collect_lem done r nc ds a.0 h (omega (arith, c)) in
      let (nc2, ds2, run2, h2, pos2) =
        collect_each (done ++ r ∷ []) rs nc1 ds1 a.1 h1 (omega (arith, c, more)) in
      (
        nc2,
        ds2,
        ap (λ x. and_then x (λ _. for_each (collect keep bitcode) rs)) run1 ∙ run2,
        subst (λ x. Holds x (nc2, ds2)) (append_assoc done (r ∷ []) rs) h2,
        pos2,
      )

  -- Records that a collector with an empty buffer collects, and a barrier after them, on a channel
  -- with room and with more credits than records, are sent without an error, whatever the batch
  -- size; and an input that receives the batches gives the same records in the same order, then the
  -- barrier with its id and the timestamp 0, and no more. The codec reads back what it writes, in
  -- fewer than 2 ^ 32 bytes for a record.
  pub receive-collect :
      (rs : List (Record T)) (barrier : CheckpointBarrier) (nc : NetworkCollector)
      → All (λ r. Faithful bitcode (rec r)) rs
      → nc.buffer ≡ []
      → length rs < nc.credits
      → (nc' : NetworkCollector) × (batches : List DataBatch) × ((for_each (collect keep bitcode) rs
              >> collect_barrier keep bitcode barrier)
            (nc, [])
          ≡ (ok tt, (nc', batches)))
        × (receive bitcode (length rs + 2) (record { batch_rx = batches; element_buffer = [] })
            ≡ recs rs ++ received_barrier barrier.checkpoint_id ∷ [])
  unfolding collect_barrier
  receive-collect rs barrier nc a e c =
      let (nc1, ds1, run1, h1, pos1) = collect_each [] rs nc [] a ([], e, refl, tt) c in
      let (nc2, ds2, run2, empty, v2, more) = flush_lem rs nc1 ds1 nc1.buffer refl h1 pos1 in
      let last = barrier_batch keep bitcode nc2 barrier in
      let v =
        flat_map-append (elements_of bitcode) ds2 (last ∷ [])
        ∙ ap (λ x. x ++ received_barrier barrier.checkpoint_id ∷ []) v2 in
      (
        nc2,
        ds2 ++ last ∷ [],
        ap (λ x. and_then x (λ _. collect_barrier keep bitcode barrier)) run1
            ∙ ap (λ x. and_then x (λ _ s. send keep (barrier_batch keep bitcode s.0 barrier) s))
                run2,
        receive-view bitcode (length rs + 2)
              (record { batch_rx = ds2 ++ last ∷ []; element_buffer = [] })
              (omega (
                arith,
                ap length v,
                length-append (recs rs) (received_barrier barrier.checkpoint_id ∷ []),
                length-recs rs,
              ))
            ∙ v,
      )
