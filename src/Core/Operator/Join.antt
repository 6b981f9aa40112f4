-- ===== src/Core/Operator/Join.antt =====
-- crates/flume-core/src/operator/join.rs and crates/flume-core/src/join.rs: the window join and the
-- window cogroup. The assigner, the trigger and the function are fixed when the operator is built,
-- and are parameters here; a function may keep a state of its own, of type `J`, which stands beside
-- that of the collector.
pub mod Fire
pub mod Buffered
pub mod Keeps
mod Tests
use flume_rs.Base.{List, [], ◌∷◌, ◌++◌, max, sub64}
use flume_rs.Core.Time.{EventTimestamp}
use flume_rs.Core.Record.{
  Bytes, Record, new, with_key, Watermark, CheckpointBarrier, Either, left, right,
}
use flume_rs.Core.Result.{Run, for_each, on_second}
use flume_rs.Core.Collector.{Collector}
use flume_rs.Core.Window.{WindowAssigner, Trigger}
use flume_rs.Core.Operator.Keyed.{WindowKey}
use flume_rs.Core.Operator.Keyed.State.{KeyedState, new_state, keep, fire_and_purge}

-- The traits `JoinFunction` and `CogroupFunction`, whose methods take `&mut self`.
abbrev pub JoinFunction : Type 0 → Type 0 → Type 0 → Type 0 → Type 0
JoinFunction J L R Out = L → R → J → Out × J

abbrev pub CogroupFunction : Type 0 → Type 0 → Type 0 → Type 0 → Type 0
CogroupFunction J L R Out = Bytes → List L → List R → J → List Out × J

pub record WindowJoinState (L R : Type 0) : Type 0 where
  pub left : List (L × EventTimestamp)
  pub right : List (R × EventTimestamp)

pub record CogroupState (L R : Type 0) : Type 0 where
  pub left : List L
  pub right : List R

abbrev pub WindowJoinOperator : Type 0 → Type 0 → Type 0
WindowJoinOperator L R = KeyedState (WindowJoinState L R)

abbrev pub WindowCogroupOperator : Type 0 → Type 0 → Type 0
WindowCogroupOperator L R = KeyedState (CogroupState L R)

module _ {L R : Type 0} where
  abbrev pub empty_join : WindowJoinState L R
  empty_join = record { left = []; right = [] }

  abbrev pub empty_cogroup : CogroupState L R
  empty_cogroup = record { left = []; right = [] }

  abbrev pub push_join : Either L R → EventTimestamp → WindowJoinState L R → WindowJoinState L R
  push_join (left v) t s = record s { left = s.left ++ (v, t) ∷ [] }
  push_join (right v) t s = record s { right = s.right ++ (v, t) ∷ [] }

  abbrev pub push_cogroup : Either L R → CogroupState L R → CogroupState L R
  push_cogroup (left v) s = record s { left = s.left ++ v ∷ [] }
  push_cogroup (right v) s = record s { right = s.right ++ v ∷ [] }

  -- `process_record` of the join, and of the cogroup.
  abbrev pub join_record :
      {C : Type 0}
      → WindowAssigner
      → Record (Either L R)
      → Run (WindowJoinOperator L R × C) (Unit {0})
  join_record assigner r =
      keep assigner empty_join (push_join r.value r.timestamp) r.key r.timestamp

  abbrev pub cogroup_record :
      {C : Type 0}
      → WindowAssigner
      → Record (Either L R)
      → Run (WindowCogroupOperator L R × C) (Unit {0})
  cogroup_record assigner r = keep assigner empty_cogroup (push_cogroup r.value) r.key r.timestamp

module _ {Out C : Type 0} (out : Collector C Out) where
  unfoldable pub emit_results : List Out → Bytes → EventTimestamp → Run C (Unit {0})
  emit_results results key timestamp =
      for_each (λ v. out.collect (with_key (new v timestamp) key)) results

  -- `process_barrier`, in both.
  abbrev pub join_barrier :
      {S J : Type 0} → CheckpointBarrier → Run (KeyedState S × (J × C)) (Unit {0})
  join_barrier b = on_second (on_second (out.collect_barrier b))

module _ {J L R Out C : Type 0} (out : Collector C Out) where
  -- One call of `join_fn`, and the send of its output.
  abbrev pub join_pair :
      JoinFunction J L R Out
      → Bytes
      → L × EventTimestamp
      → R × EventTimestamp
      → Run (J × C) (Unit {0})
  join_pair join_fn key l r (j, c) =
      let (output, j') = join_fn l.0 r.0 j in
      on_second (out.collect (with_key (new output (max l.1 r.1)) key)) (j', c)

  abbrev pub fire_join :
      JoinFunction J L R Out → WindowKey → WindowJoinState L R → Run (J × C) (Unit {0})
  fire_join join_fn wk s = for_each (λ l. for_each (λ r. join_pair join_fn wk.0 l r) s.right) s.left

  abbrev pub fire_cogroup :
      CogroupFunction J L R Out → WindowKey → CogroupState L R → Run (J × C) (Unit {0})
  fire_cogroup cogroup_fn wk s (j, c) =
      let (results, j') = cogroup_fn wk.0 s.left s.right j in
      on_second (emit_results out results wk.0 (sub64 wk.1.end 1)) (j', c)

  -- `process_watermark` of the join, and of the cogroup.
  abbrev pub join_watermark :
      Trigger
      → JoinFunction J L R Out
      → Watermark
      → Run (WindowJoinOperator L R × (J × C)) (Unit {0})
  join_watermark trigger join_fn w =
      fire_and_purge trigger (fire_join join_fn) (on_second (out.collect_watermark w)) w

  abbrev pub cogroup_watermark :
      Trigger
      → CogroupFunction J L R Out
      → Watermark
      → Run (WindowCogroupOperator L R × (J × C)) (Unit {0})
  cogroup_watermark trigger cogroup_fn w =
      fire_and_purge trigger (fire_cogroup cogroup_fn) (on_second (out.collect_watermark w)) w
