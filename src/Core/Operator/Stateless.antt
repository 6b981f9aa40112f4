-- ===== src/Core/Operator/Stateless.antt =====
-- crates/flume-core/src/operator/map.rs, filter.rs and flat_map.rs, and the methods that the trait
-- of traits/operator.rs gives every operator. A function of the user takes `&mut self`: it may keep
-- a state, of type `J`, which stands beside that of the collector.
pub mod Agree
mod Tests
use flume_rs.Base.{List, Bool, if◌then◌else◌}
use flume_rs.Core.Record.{Record, new, Watermark, CheckpointBarrier}
use flume_rs.Core.Result.{Run, ok, for_each, on_second}
use flume_rs.Core.Collector.{Collector}

module _ {J C Out : Type 0} (out : Collector C Out) where
  -- The default `process_watermark` and `process_barrier` of the trait `Operator`.
  abbrev pub forward_watermark : Watermark → Run (J × C) (Unit {0})
  forward_watermark w = on_second (out.collect_watermark w)

  abbrev pub forward_barrier : CheckpointBarrier → Run (J × C) (Unit {0})
  forward_barrier b = on_second (out.collect_barrier b)

module _ {J C In Out : Type 0} (out : Collector C Out) where
  unfoldable pub map_process : (In → J → Out × J) → Record In → Run (J × C) (Unit {0})
  map_process f r (j, c) =
      let (v, j') = f r.value j in
      on_second (out.collect (record { value = v; timestamp = r.timestamp; key = r.key })) (j', c)

  unfoldable pub flat_map_process : (In → J → List Out × J) → Record In → Run (J × C) (Unit {0})
  flat_map_process f r (j, c) =
      let (outputs, j') = f r.value j in
      on_second (for_each (λ v. out.collect (new v r.timestamp)) outputs) (j', c)

module _ {J C T : Type 0} (out : Collector C T) where
  unfoldable pub filter_process : (T → J → Bool × J) → Record T → Run (J × C) (Unit {0})
  filter_process predicate r (j, c) =
      let (keep, j') = predicate r.value j in
      if keep then on_second (out.collect r) (j', c) else (ok tt, (j', c))
