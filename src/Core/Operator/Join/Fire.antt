-- ===== src/Core/Operator/Join/Fire.antt =====
-- What the window join and the window cogroup of join.rs send at a watermark.
use flume_rs.Base.{◌≡◌, refl, subst, List, map, flat_map, some, max, nat_eq, list_eq, pair_eq}
use flume_rs.Base.HashMap.{IsMap}
use flume_rs.Core.Time.{EventTimestamp}
use flume_rs.Core.Record.{Record, Watermark}
use flume_rs.Core.Result.{
  ok, ◌>>◌, Run, for_each, on_second, >>-cong, for_each-map, for_each-flat_map,
}
use flume_rs.Core.Collector.{Collector}
use flume_rs.Core.Window.{window_eq, event_time_trigger}
use flume_rs.Core.Operator.Keyed.{WindowKey}
use flume_rs.Core.Operator.Keyed.Due.{due, not_due}
use flume_rs.Core.Operator.Keyed.Phases.{fire_entry, fire_and_purge-EndsAs}
use flume_rs.Core.Operator.Join.{
  JoinFunction, CogroupFunction, WindowJoinState, WindowJoinOperator, WindowCogroupOperator,
  join_pair, fire_join, fire_cogroup, join_watermark, cogroup_watermark,
}

-- A pair of buffered values to join, with the key and window of its buffer.
abbrev pub Match : Type 0 → Type 0 → Type 0
Match L R = WindowKey × ((L × EventTimestamp) × (R × EventTimestamp))

-- The cross product of the two sides of a buffer, left side first.
abbrev pub matches : {L R : Type 0} → WindowKey × WindowJoinState L R → List (Match L R)
matches x = flat_map (λ l. map (λ r. (x.0, (l, r))) x.1.right) x.1.left

module _ {J L R Out C : Type 0} (out : Collector C Out) where
  -- What one pair gives: the output of one call, at the later of the two timestamps, with the key.
  abbrev pub join_match : JoinFunction J L R Out → Match L R → Run (J × C) (Unit {0})
  join_match join_fn (wk, (l, r)) (j, c) =
      let (output, j') = join_fn l.0 r.0 j in
      let result : Record Out = record {
        value = output;
        timestamp = max l.1 r.1;
        key = some wk.0;
      } in
      let (outcome, c') = out.collect result c in (outcome, (j', c'))

  fire_join-matches :
      (join_fn : JoinFunction J L R Out) (x : WindowKey × WindowJoinState L R) (s : J × C)
      → fire_entry (fire_join out join_fn) x s ≡ for_each (join_match join_fn) (matches x) s
  fire_join-matches join_fn x s =
      for_each-flat_map (join_match join_fn)
        (λ l. for_each (λ r. join_pair out join_fn x.0.0 l r) x.1.right)
        (λ l. map (λ r. (x.0, (l, r))) x.1.right) x.1.left s
        (λ l. for_each-map (join_match join_fn) (λ r. (x.0, (l, r))) x.1.right)

  -- At a watermark, with the default trigger, the join calls its function once for each pair of a
  -- left and a right value of a window whose end the watermark has reached, window by window and
  -- left value by left value, sends each output at the later of the two timestamps with the key of
  -- the window, and then forwards the watermark; it stops at the first failure of the collector, and
  -- ends as that one loop does. If all goes well, exactly the other windows are kept, as they were.
  pub join_watermark_fires :
      (join_fn : JoinFunction J L R Out) (w : Watermark) (op : WindowJoinOperator L R) (s : J × C)
      → IsMap op.state
      → let t = join_watermark out event_time_trigger join_fn w (op, s) in
        let u =
          (for_each (join_match join_fn) (flat_map matches (due w op.state))
              >> on_second (out.collect_watermark w))
            s in
        (t.0 ≡ u.0) × (t.1.1 ≡ u.1) × (t.0 ≡ ok tt → t.1.0.state ≡ not_due w op.state)
  join_watermark_fires join_fn w op s h =
      let forward = on_second (out.collect_watermark w) in
      let t = join_watermark out event_time_trigger join_fn w (op, s) in
      subst (λ u. (t.0 ≡ u.0) × (t.1.1 ≡ u.1) × (t.0 ≡ ok tt → t.1.0.state ≡ not_due w op.state))
        (>>-cong (for_each (fire_entry (fire_join out join_fn)) (due w op.state))
          (for_each (join_match join_fn) (flat_map matches (due w op.state))) forward forward s
          (for_each-flat_map (join_match join_fn) (fire_entry (fire_join out join_fn)) matches
            (due w op.state) s (fire_join-matches join_fn))
          (λ d. refl))
        (fire_and_purge-EndsAs (fire_join out join_fn) forward w op s h)

  -- At a watermark, with the default trigger, the cogroup calls its function once for each window
  -- whose end the watermark has reached, on all that the window holds of either side, sends its
  -- outputs in order, and then forwards the watermark; it stops at the first failure of the
  -- collector, and ends as that one loop does. If all goes well, exactly the other windows are kept.
  pub cogroup_watermark_fires :
      (cogroup_fn : CogroupFunction J L R Out) (w : Watermark) (op : WindowCogroupOperator L R)
      (s : J × C)
      → IsMap op.state
      → let t = cogroup_watermark out event_time_trigger cogroup_fn w (op, s) in
        let u =
          (for_each (fire_entry (fire_cogroup out cogroup_fn)) (due w op.state)
              >> on_second (out.collect_watermark w))
            s in
        (t.0 ≡ u.0) × (t.1.1 ≡ u.1) × (t.0 ≡ ok tt → t.1.0.state ≡ not_due w op.state)
  cogroup_watermark_fires cogroup_fn w op s h =
      fire_and_purge-EndsAs (fire_cogroup out cogroup_fn) (on_second (out.collect_watermark w)) w op
        s h
