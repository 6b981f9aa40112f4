-- ===== src/Core/Operator/Window.antt =====
-- crates/flume-core/src/operator/window.rs. The assigner, the trigger and the aggregate function
-- are fixed when the operator is built, and are parameters here.
pub mod Accumulate
pub mod Fire
mod Tests
use flume_rs.Base.{ℕ, List, [], ◌∷◌, Option, none, some, sub64, list_eq, nat_eq, pair_eq}
use flume_rs.Base.HashMap.{HashMap, keys, get, insert}
use flume_rs.Core.Record.{Bytes, Record, Watermark, CheckpointBarrier}
use flume_rs.Core.Result.{
  FlumeResult, Run, ok, panic, for_each, on_second, on_first, return, ◌>>=◌, ◌>>◌,
}
use flume_rs.Core.Collector.{Collector}
use flume_rs.Core.Window.{Window, window_eq, WindowAssigner, Trigger, AggregateFunction}
use flume_rs.Core.Operator.Keyed.{WindowKey, record_key, or_create, to_fire, to_purge, purge_all}

pub record WindowOperator (Acc : Type 0) : Type 0 where
  pub accumulators : HashMap WindowKey Acc
  pub key_pool : List Bytes

abbrev pub new_operator : {Acc : Type 0} → WindowOperator Acc
new_operator = record { accumulators = []; key_pool = [] }

module _ {In Acc Out : Type 0} (assigner : WindowAssigner)
    (aggregate : AggregateFunction In Acc Out) where
  open aggregate use {create_accumulator, add}

  -- `entry(wk).or_insert_with(create_accumulator)`, then `add`.
  abbrev pub add_to : Bytes → In → HashMap WindowKey Acc → Window → HashMap WindowKey Acc
  add_to key value m window =
      insert (key, window) (add (or_create (get (key, window) m) create_accumulator) value) m

  unfoldable pub add_all : Bytes → In → HashMap WindowKey Acc → List Window → HashMap WindowKey Acc
  add_all key value m [] = m
  add_all key value m (window ∷ windows) = add_all key value (add_to key value m window) windows

  unfoldable pub process_record {κ} :
      {C : Type κ} → Record In → Run (WindowOperator Acc × C) (Unit {0})
  process_record r (op, c) =
      let (key, pool) = record_key r.key op.key_pool in
      elim (assigner r.timestamp) [
        | none ↦ (panic, (record op { key_pool = pool }, c))
        | some windows ↦ (
          ok tt,
          (
            record { accumulators = add_all key r.value op.accumulators windows; key_pool = pool },
            c,
          ),
        )
      ]

module _ {In Acc Out : Type 0} (aggregate : AggregateFunction In Acc Out) where
  open aggregate use {get_result}

  -- The record for the accumulator of a window: at the last millisecond of the window.
  abbrev pub result_record : WindowKey → Acc → Record Out
  result_record wk acc = record {
    value = get_result acc;
    timestamp = sub64 wk.1.end 1;
    key = some wk.0;
  }

abbrev pub purge : {Acc : Type 0} → WindowOperator Acc → List WindowKey → WindowOperator Acc
purge op wks =
    let (m, pool) = purge_all (op.accumulators, op.key_pool) wks in
    record { accumulators = m; key_pool = pool }

module _ {In Acc Out C : Type 0} (trigger : Trigger) (aggregate : AggregateFunction In Acc Out)
    (out : Collector C Out) where
  abbrev pub fire_one : HashMap WindowKey Acc → WindowKey → Run C (Unit {0})
  fire_one m wk c = elim (get wk m) [
    | none ↦ (ok tt, c)
    | some acc ↦ out.collect (result_record aggregate wk acc) c
  ]

  unfoldable pub process_watermark : Watermark → Run (WindowOperator Acc × C) (Unit {0})
  process_watermark w s =
      let wks = keys s.0.accumulators in
      (do
        on_second (for_each (fire_one s.0.accumulators) (to_fire trigger w wks))
        on_first (λ op. purge op (to_purge trigger w wks))
        on_second (out.collect_watermark w))
        s

  abbrev pub process_barrier : CheckpointBarrier → Run (WindowOperator Acc × C) (Unit {0})
  process_barrier b = on_second (out.collect_barrier b)
