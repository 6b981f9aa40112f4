-- ===== src/Core/Operator/Window/Fire.antt =====
-- What window.rs sends at a watermark, under the default trigger, and what it keeps.
use flume_rs.Base.{
  ◌≡◌, refl, ap, sym, subst, ◌∙◌, [], ◌∷◌, ◌++◌, map, some, sub64, nat_eq, list_eq, pair_eq,
}
use flume_rs.Base.HashMap.{HashMap, keys, IsMap}
use flume_rs.Base.HashMap.Entries.{Finds, Finds-self, Finds-filter}
use flume_rs.Core.Record.{Watermark, StreamElement, rec, watermark}
use flume_rs.Core.Result.{ok, ◌>>◌, for_each, >>-cong, EndsAs, phases-EndsAs}
use flume_rs.Core.Collector.{Collector, emit, collect_element, emit-append_one}
use flume_rs.Core.Window.{window_eq, event_time_trigger, AggregateFunction}
use flume_rs.Core.Operator.Keyed.{WindowKey, to_fire, to_purge}
use flume_rs.Core.Operator.Keyed.Due.{due, not_due, to_fire-keys, to_purge-keys, purge_all-filter}
use flume_rs.Core.Operator.Window.{WindowOperator, fire_one, purge, process_watermark}

module _ {In Acc Out C : Type 0} (aggregate : AggregateFunction In Acc Out)
    (out : Collector C Out) where
  -- What one entry gives: its result, at the last millisecond of its window, with its key.
  abbrev pub entry_element : WindowKey × Acc → StreamElement Out
  entry_element (wk, acc) =
      rec
        (record { value = aggregate.get_result acc; timestamp = sub64 wk.1.end 1; key = some wk.0 })

  for_each-fire_one :
      (m n : HashMap WindowKey Acc) (c : C)
      → Finds m n
      → for_each (fire_one event_time_trigger aggregate out m) (keys n) c
        ≡ emit out (map entry_element n) c
  unfolding for_each
  for_each-fire_one m [] c f = refl
  for_each-fire_one m (x ∷ n) c f =
      >>-cong (fire_one event_time_trigger aggregate out m x.0)
        (collect_element out (entry_element x)) _ _ c (rw (f.0, fire_one))
        (λ d. for_each-fire_one m n d f.1)

  emit-entries :
      (w : Watermark) (m : HashMap WindowKey Acc) (c : C)
      → IsMap m
      → emit out (map entry_element (due w m) ++ watermark w ∷ []) c
        ≡ (for_each
                (fire_one event_time_trigger aggregate out m)
                (to_fire event_time_trigger w (keys m))
              >> out.collect_watermark w)
            c
  emit-entries w m c h =
      emit-append_one out (map entry_element (due w m)) (watermark w) c
      ∙ >>-cong (emit out (map entry_element (due w m)))
          (for_each (fire_one event_time_trigger aggregate out m)
            (to_fire event_time_trigger w (keys m)))
          (out.collect_watermark w) (out.collect_watermark w) c
          (rw (to_fire-keys w m)
            (sym (for_each-fire_one m (due w m) c (Finds-filter _ m m (Finds-self m h)))))
          (λ d. refl)

  left_over :
      (w : Watermark) (op : WindowOperator Acc)
      → IsMap op.accumulators
      → (purge op (to_purge event_time_trigger w (keys op.accumulators))).accumulators
        ≡ not_due w op.accumulators
  left_over w op h =
      rw (to_purge-keys w op.accumulators) (purge_all-filter _ op.accumulators op.key_pool h)

  -- At a watermark, with the default trigger, the operator sends in order the result of each window
  -- whose end the watermark has reached, at the last millisecond of the window and with its key,
  -- and then the watermark; it stops at the first failure of the collector, and ends as that
  -- sending does. If all goes well, exactly the other windows are kept, with their accumulators.
  pub process_watermark_fires :
      (w : Watermark) (op : WindowOperator Acc) (c : C)
      → IsMap op.accumulators
      → let t = process_watermark event_time_trigger aggregate out w (op, c) in
        let u = emit out (map entry_element (due w op.accumulators) ++ watermark w ∷ []) c in
        (t.0 ≡ u.0) × (t.1.1 ≡ u.1) × (t.0 ≡ ok tt → t.1.0.accumulators ≡ not_due w op.accumulators)
  unfolding process_watermark
  process_watermark_fires w op c h =
      let t = process_watermark event_time_trigger aggregate out w (op, c) in
      let wks = to_purge event_time_trigger w (keys op.accumulators) in
      let e =
        subst (λ u. EndsAs t u (purge op wks)) (sym (emit-entries w op.accumulators c h))
          (phases-EndsAs
            (for_each (fire_one event_time_trigger aggregate out op.accumulators)
              (to_fire event_time_trigger w (keys op.accumulators)) c)
            (λ o. purge o wks) (out.collect_watermark w) op) in
      (
        e.0,
        e.1,
        λ fine. ap (λ (o : WindowOperator Acc). o.accumulators) (e.2 fine) ∙ left_over w op h,
      )
