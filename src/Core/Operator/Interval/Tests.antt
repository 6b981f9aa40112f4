-- ===== src/Core/Operator/Interval/Tests.antt =====
-- The theorems on interval_join.rs at one key.
use flume_rs.Base.{ℕ, ◌+◌, ◌≤◌, ◌≡◌, refl, List, [], ◌∷◌, true, false, leb, list_eq, nat_eq, arith}
use flume_rs.Base.HashMap.{get}
use flume_rs.Core.Record.{StreamElement, Watermark, left, right}
use flume_rs.Core.Result.{for_each}
use flume_rs.Core.Collector.{recorder}
use flume_rs.Core.Operator.Join.{JoinFunction}
use flume_rs.Core.Operator.Interval.{
  IntervalJoinState, IntervalJoinOperator, join_pair, send_matches, process_watermark,
}
use flume_rs.Core.Operator.Interval.Match.{in_bounds, early_right_joins}
use flume_rs.Core.Operator.Interval.Evict.{remaining, interval_watermark_evicts}

abbrev add_counting : JoinFunction ℕ ℕ ℕ ℕ
add_counting l r calls = (l + r, calls + 1)

abbrev start : ℕ × List (StreamElement ℕ)
start = (0, [])

abbrev buffer : IntervalJoinState ℕ ℕ
buffer = record { left = (0, 1 ∷ []) ∷ []; right = (40, 2 ∷ []) ∷ (90, 3 ∷ 4 ∷ []) ∷ [] }

abbrev one_key : IntervalJoinOperator ℕ ℕ
one_key = record { state = (7 ∷ [], buffer) ∷ []; current_watermark = 0 }

abbrev at_100 : Watermark
at_100 = record { timestamp = 100 }

early_right_joins_example :
    (in_bounds 10 50 0 3 ≡ false)
    × (send_matches 10 50 add_counting recorder (7 ∷ []) 3 (right 6) buffer start
        ≡ for_each (λ x. join_pair add_counting recorder (7 ∷ []) x (3, 6)) ((0, 1) ∷ []) start)
early_right_joins_example =
    early_right_joins 10 50 add_counting recorder (7 ∷ []) 3 1 6 buffer start (omega arith)
      (omega arith) (omega arith) refl

interval_watermark_evicts_example :
    let t = process_watermark 50 recorder at_100 (one_key, start) in
    (t.0 ≡ (recorder.collect_watermark at_100 start.1).0)
    × (t.1.1 ≡ (start.0, (recorder.collect_watermark at_100 start.1).1))
    × (t.1.0.state ≡ remaining 50 at_100 one_key.state)
    × ((lower t_l t_r : ℕ)
        → 100 ≤ t_r
        → in_bounds lower 50 t_l t_r ≡ true
        → leb 100 (t_l + 50) ≡ true)
unfolding get
interval_watermark_evicts_example =
    interval_watermark_evicts 50 recorder at_100 one_key start.0 start.1 (omega arith)
      ((refl, tt), (((refl, tt), ((refl, (refl, tt)))), tt))
