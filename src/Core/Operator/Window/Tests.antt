-- ===== src/Core/Operator/Window/Tests.antt =====
-- The theorems on operator/window.rs at a sum over windows of 10 milliseconds.
use flume_rs.Base.{ℕ, ◌+◌, ◌≡◌, refl, List, [], ◌∷◌, ◌++◌, map, list_eq, pair_eq, nat_eq}
use flume_rs.Base.HashMap.{get}
use flume_rs.Core.Record.{Record, StreamElement, watermark, new, with_key}
use flume_rs.Core.Result.{ok, for_each}
use flume_rs.Core.Collector.{recorder, emit}
use flume_rs.Core.Window.{window_eq, tumbling_at, event_time_trigger, AggregateFunction}
use flume_rs.Core.Operator.Keyed.{WindowKey}
use flume_rs.Core.Operator.Keyed.Due.{due, not_due}
use flume_rs.Core.Operator.Window.{WindowOperator, new_operator, process_record, process_watermark}
use flume_rs.Core.Operator.Window.Accumulate.{
  values_for, aggregate_from, process_record_accumulates,
}
use flume_rs.Core.Operator.Window.Fire.{entry_element, process_watermark_fires}

abbrev sum : AggregateFunction ℕ ℕ ℕ
sum = record {
  create_accumulator = 0;
  add = λ a v. a + v;
  get_result = λ a. a;
  merge = λ a b. a + b;
}

abbrev three_records : List (Record ℕ)
three_records = new 1 3 ∷ with_key (new 2 4) (7 ∷ []) ∷ new 5 8 ∷ []

abbrev nothing : Unit {0}
nothing = tt

abbrev start : WindowOperator ℕ
start = new_operator

process_record_accumulates_example :
    (op : WindowOperator ℕ) × (for_each
        (process_record (tumbling_at 10) sum)
        three_records
        (start, nothing)
      ≡ (ok tt, (op, nothing)))
    × ((wk : WindowKey)
        → get wk op.accumulators
          ≡ aggregate_from
              (tumbling_at 10)
              sum
              (get wk start.accumulators)
              (values_for (tumbling_at 10) sum wk three_records))
unfolding tumbling_at
process_record_accumulates_example =
    process_record_accumulates (tumbling_at 10) sum three_records start nothing
      ((refl, (refl, tt)), ((refl, (refl, tt)), ((refl, (refl, tt)), tt)))

abbrev two_windows : WindowOperator ℕ
two_windows = record {
  accumulators =
      ((1 ∷ [], record { start = 0; end = 10 }), 4)
      ∷ ((1 ∷ [], record { start = 10; end = 20 }), 6)
      ∷ [];
  key_pool = [];
}

abbrev sent : List (StreamElement ℕ)
sent = []

process_watermark_fires_example :
    let t =
      process_watermark event_time_trigger sum recorder
        (record { timestamp = 12 })
        (two_windows, sent) in
    let u =
      emit recorder
        (map (entry_element sum recorder) (due (record { timestamp = 12 }) two_windows.accumulators)
          ++ watermark (record { timestamp = 12 }) ∷ [])
        sent in
    (t.0 ≡ u.0)
    × (t.1.1 ≡ u.1)
    × (t.0 ≡ ok tt
        → t.1.0.accumulators ≡ not_due (record { timestamp = 12 }) two_windows.accumulators)
unfolding get
process_watermark_fires_example =
    process_watermark_fires sum recorder (record { timestamp = 12 }) two_windows sent
      (refl, (refl, tt))
