-- ===== src/Core/Operator/Join/Tests.antt =====
-- The theorems on join.rs at a join of two windows of 10 milliseconds.
use flume_rs.Base.{ℕ, ◌+◌, ◌≡◌, refl, List, [], ◌∷◌, flat_map, list_eq, pair_eq, nat_eq}
use flume_rs.Base.HashMap.{get}
use flume_rs.Core.Record.{Record, StreamElement, Watermark, Either, left, right, new, with_key}
use flume_rs.Core.Result.{ok, for_each, on_second, ◌>>◌}
use flume_rs.Core.Collector.{recorder}
use flume_rs.Core.Window.{window_eq, tumbling_at, event_time_trigger}
use flume_rs.Core.Operator.Keyed.{WindowKey}
use flume_rs.Core.Operator.Keyed.Due.{due, not_due}
use flume_rs.Core.Operator.Keyed.State.{new_state}
use flume_rs.Core.Operator.Join.{
  JoinFunction, CogroupFunction, WindowJoinOperator, WindowCogroupOperator, join_record,
  cogroup_record, join_watermark,
}
use flume_rs.Core.Operator.Join.Keeps.{records_for, join_records_keep}
use flume_rs.Core.Operator.Join.Buffered.{joined, grouped}
use flume_rs.Core.Operator.Join.Fire.{matches, join_match, join_watermark_fires}

abbrev two_records : List (Record (Either ℕ ℕ))
two_records = new (left 1) 3 ∷ with_key (new (right 2) 4) (7 ∷ []) ∷ []

abbrev no_joins : WindowJoinOperator ℕ ℕ
no_joins = new_state

abbrev no_groups : WindowCogroupOperator ℕ ℕ
no_groups = new_state

abbrev nothing : Unit {0}
nothing = tt

join_records_keep_example :
    ((op : WindowJoinOperator ℕ ℕ) × (for_each
          (join_record (tumbling_at 10))
          two_records
          (no_joins, nothing)
        ≡ (ok tt, (op, nothing)))
      × ((wk : WindowKey)
          → get wk op.state
            ≡ joined (get wk no_joins.state) (records_for (tumbling_at 10) wk two_records)))
    × ((cg : WindowCogroupOperator ℕ ℕ) × (for_each
            (cogroup_record (tumbling_at 10))
            two_records
            (no_groups, nothing)
          ≡ (ok tt, (cg, nothing)))
        × ((wk : WindowKey)
            → get wk cg.state
              ≡ grouped (get wk no_groups.state) (records_for (tumbling_at 10) wk two_records)))
unfolding tumbling_at
join_records_keep_example =
    join_records_keep (tumbling_at 10) two_records nothing no_joins no_groups
      ((refl, (refl, tt)), ((refl, (refl, tt)), tt))

abbrev joins : WindowJoinOperator ℕ ℕ
joins = record {
  state =
      (
        (1 ∷ [], record { start = 0; end = 10 }),
        record { left = (1, 3) ∷ (2, 5) ∷ []; right = (7, 4) ∷ [] },
      )
      ∷ [];
  key_pool = [];
}

abbrev groups : WindowCogroupOperator ℕ ℕ
groups = record {
  state =
      ((1 ∷ [], record { start = 0; end = 10 }), record { left = 1 ∷ 2 ∷ []; right = 7 ∷ [] }) ∷ [];
  key_pool = [];
}

-- A function that counts its calls.
abbrev add_counting : JoinFunction ℕ ℕ ℕ ℕ
add_counting l r calls = (l + r, calls + 1)

abbrev lefts_counting : CogroupFunction ℕ ℕ ℕ ℕ
lefts_counting key ls rs calls = (ls, calls + 1)

abbrev start : ℕ × List (StreamElement ℕ)
start = (0, [])

abbrev twelve : Watermark
twelve = record { timestamp = 12 }

join_watermark_fires_example :
    let t = join_watermark recorder event_time_trigger add_counting twelve (joins, start) in
    let u =
      (for_each (join_match recorder add_counting) (flat_map matches (due twelve joins.state))
          >> on_second (recorder.collect_watermark twelve))
        start in
    (t.0 ≡ u.0) × (t.1.1 ≡ u.1) × (t.0 ≡ ok tt → t.1.0.state ≡ not_due twelve joins.state)
unfolding get
join_watermark_fires_example =
    join_watermark_fires recorder add_counting twelve joins start (refl, tt)
