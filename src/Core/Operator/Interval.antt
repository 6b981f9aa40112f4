-- ===== src/Core/Operator/Interval.antt =====
-- crates/flume-core/src/operator/interval_join.rs. The bounds and the function are fixed when the
-- operator is built. A `BTreeMap` by timestamp is the list of its entries in ascending order, and so
-- also an association list, from which `remove` takes an entry.
pub mod Match
pub mod Evict
mod Tests
use flume_rs.Base.{
  ℕ, List, [], ◌∷◌, ◌++◌, Bool, true, false, ◌&&◌, max, ltb, leb, map, filter, if◌then◌else◌,
  list_eq, nat_eq,
}
use flume_rs.Base.HashMap.{HashMap, keys, get, insert}
use flume_rs.Base.HashMap.Entries.{remove_all}
use flume_rs.Core.Time.{EventTimestamp, Duration, add_duration, sub_duration, timestamp_min}
use flume_rs.Core.Record.{
  Bytes, Record, new, with_key, Watermark, CheckpointBarrier, Either, left, right,
}
use flume_rs.Core.Result.{Run, panic, for_each, on_second, on_first, ◌>>=◌, ◌>>◌}
use flume_rs.Core.Collector.{Collector}
use flume_rs.Core.Operator.Keyed.{or_create}
use flume_rs.Core.Operator.Join.{JoinFunction}

abbrev pub ByTime : Type 0 → Type 0
ByTime A = HashMap EventTimestamp (List A)

pub record IntervalJoinState (L R : Type 0) : Type 0 where
  pub left : ByTime L
  pub right : ByTime R

pub record IntervalJoinOperator (L R : Type 0) : Type 0 where
  pub state : HashMap Bytes (IntervalJoinState L R)
  pub current_watermark : EventTimestamp

abbrev pub new_join : {L R : Type 0} → IntervalJoinOperator L R
new_join = record { state = []; current_watermark = timestamp_min }

module _ {A : Type 0} where
  -- `entry(timestamp).or_default().push(value)`
  unfoldable pub push_at : EventTimestamp → A → ByTime A → ByTime A
  push_at t v [] = (t, v ∷ []) ∷ []
  push_at t v ((s, vs) ∷ m) =
      if ltb t s
      then (t, v ∷ []) ∷ (s, vs) ∷ m
      else if ltb s t
      then (s, vs) ∷ push_at t v m
      else (s, vs ++ v ∷ []) ∷ m

  -- `range(start..=end)`, when it does not panic.
  abbrev pub range : EventTimestamp → EventTimestamp → ByTime A → ByTime A
  range start end = filter (λ e. leb start e.0 && leb e.0 end)

  -- `range(..cutoff)`, its keys, and the loop that removes them.
  abbrev pub is_below : EventTimestamp → EventTimestamp × List A → Bool
  is_below cutoff e = ltb e.0 cutoff

  abbrev pub remove_below : EventTimestamp → ByTime A → ByTime A
  remove_below cutoff m = remove_all (keys (filter (is_below cutoff) m)) m

  abbrev pub is_empty : ByTime A → Bool
  is_empty [] = true
  is_empty (e ∷ m) = false

module _ {L R : Type 0} where
  abbrev pub empty_state : IntervalJoinState L R
  empty_state = record { left = []; right = [] }

  abbrev pub state_of : Bytes → IntervalJoinOperator L R → IntervalJoinState L R
  state_of key op = or_create (get key op.state) empty_state

  abbrev pub store :
      Bytes → EventTimestamp → Either L R → IntervalJoinOperator L R → IntervalJoinOperator L R
  store key t (left v) op =
      let s = state_of key op in
      record op { state = insert key (record s { left = push_at t v s.left }) op.state }
  store key t (right v) op =
      let s = state_of key op in
      record op { state = insert key (record s { right = push_at t v s.right }) op.state }

module _ {J L R Out C : Type 0} (join_fn : JoinFunction J L R Out) (out : Collector C Out) where
  -- One call of `join_fn`, and the send of its output.
  abbrev pub join_pair : Bytes → EventTimestamp × L → EventTimestamp × R → Run (J × C) (Unit {0})
  join_pair key l r (j, c) =
      let (output, j') = join_fn l.1 r.1 j in
      on_second (out.collect (with_key (new output (max l.0 r.0)) key)) (j', c)

  -- The two loops over the entries of a range and the values of an entry.
  abbrev pub send_right : Bytes → EventTimestamp × L → ByTime R → Run (J × C) (Unit {0})
  send_right key l = for_each (λ e. for_each (λ v. join_pair key l (e.0, v)) e.1)

  abbrev pub send_left : Bytes → EventTimestamp × R → ByTime L → Run (J × C) (Unit {0})
  send_left key r = for_each (λ e. for_each (λ v. join_pair key (e.0, v) r) e.1)

-- A range whose start lies after its end panics.
abbrev pub over_range :
    {D : Type 0} → EventTimestamp → EventTimestamp → Run D (Unit {0}) → Run D (Unit {0})
over_range start end loop d = if ltb end start then (panic, d) else loop d

module _ {J L R Out C : Type 0} (lower upper : Duration) (join_fn : JoinFunction J L R Out)
    (out : Collector C Out) where
  abbrev pub send_matches :
      Bytes → EventTimestamp → Either L R → IntervalJoinState L R → Run (J × C) (Unit {0})
  send_matches key t (left v) s =
      let start = add_duration t lower in
      let end = add_duration t upper in
      over_range start end (send_right join_fn out key (t, v) (range start end s.right))
  send_matches key t (right v) s =
      let start = sub_duration t upper in
      let end = sub_duration t lower in
      over_range start end (send_left join_fn out key (t, v) (range start end s.left))

  unfoldable pub process_record :
      Record (Either L R) → Run (IntervalJoinOperator L R × (J × C)) (Unit {0})
  process_record r (op, d) =
      let key = or_create r.key [] in
      let op' = store key r.timestamp r.value op in
      on_second (send_matches key r.timestamp r.value (state_of key op')) (op', d)

module _ {L R : Type 0} (upper : Duration) where
  abbrev pub evict_one : Watermark → IntervalJoinState L R → IntervalJoinState L R
  evict_one w s =
      let left_cutoff = sub_duration w.timestamp upper in
      record { left = remove_below left_cutoff s.left; right = remove_below left_cutoff s.right }

  abbrev pub has_nothing : Bytes × IntervalJoinState L R → Bool
  has_nothing e = is_empty e.1.left && is_empty e.1.right

  unfoldable pub evict : Watermark → IntervalJoinOperator L R → IntervalJoinOperator L R
  evict w op =
      let evicted = map (λ e. (e.0, evict_one w e.1)) op.state in
      record {
        state = remove_all (keys (filter has_nothing evicted)) evicted;
        current_watermark = w.timestamp;
      }

  unfoldable pub process_watermark {κ} :
      {J : Type κ} {C Out : Type 0}
      → Collector C Out
      → Watermark
      → Run (IntervalJoinOperator L R × (J × C)) (Unit {0})
  process_watermark out w = on_first (evict w) >> on_second (on_second (out.collect_watermark w))

abbrev pub process_barrier :
    {S J C Out : Type 0} → Collector C Out → CheckpointBarrier → Run (S × (J × C)) (Unit {0})
process_barrier out b = on_second (on_second (out.collect_barrier b))
