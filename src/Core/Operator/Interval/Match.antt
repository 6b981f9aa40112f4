-- ===== src/Core/Operator/Interval/Match.antt =====
-- Which pairs interval_join.rs joins.
use flume_rs.Base.{
  ◌+◌, ◌^◌, ◌≤◌, ◌<◌, ◌≡◌, refl, ap, ◌∙◌, List, [], ◌∷◌, Bool, false, ◌&&◌, ltb, leb, map, flat_map,
  list_eq, nat_eq, arith,
}
use flume_rs.Core.Time.{EventTimestamp, Duration, sub_duration}
use flume_rs.Core.Record.{Bytes, left, right}
use flume_rs.Core.Result.{Run, for_each, for_each-map, for_each-flat_map}
use flume_rs.Core.Collector.{Collector}
use flume_rs.Core.Operator.Join.{JoinFunction}
use flume_rs.Core.Operator.Interval.{
  ByTime, IntervalJoinState, range, join_pair, send_left, over_range, send_matches,
}

module _ (lower upper : Duration) where
  -- What a pair has to satisfy: `t_r` in `[t_l + lower, t_l + upper]`.
  abbrev pub in_bounds : EventTimestamp → EventTimestamp → Bool
  in_bounds t_l t_r = leb (t_l + lower) t_r && leb t_r (t_l + upper)

over_range-runs :
    {D : Type 0} (start end : EventTimestamp) (loop : Run D (Unit {0})) (d : D)
    → ltb end start ≡ false
    → over_range start end loop d ≡ loop d
over_range-runs start end loop d h = rw h refl

-- The values of a buffer with their timestamps.
abbrev pub stamped : {A : Type 0} → ByTime A → List (EventTimestamp × A)
stamped m = flat_map (λ e. map (λ v. (e.0, v)) e.1) m

module _ {J L R Out C : Type 0} (join_fn : JoinFunction J L R Out) (out : Collector C Out) where
  send_left-stamped :
      (key : Bytes) (r : EventTimestamp × R) (m : ByTime L) (d : J × C)
      → send_left join_fn out key r m d
        ≡ for_each (λ l. join_pair join_fn out key l r) (stamped m) d
  send_left-stamped key r m d =
      for_each-flat_map (λ l. join_pair join_fn out key l r) _ _ m d
        (λ e. for_each-map (λ l. join_pair join_fn out key l r) (λ v. (e.0, v)) e.1)

module _ {J L R Out C : Type 0} (lower upper : Duration) (join_fn : JoinFunction J L R Out)
    (out : Collector C Out) where
  -- A right record at a time before `lower`, with one left value that has the timestamp 0, is joined
  -- with it, although the right record lies before the interval of the left one: the subtraction of
  -- the lower bound stops at 0.
  pub early_right_joins :
      (key : Bytes) (t : EventTimestamp) (l : L) (r : R) (s : IntervalJoinState L R) (d : J × C)
      → t < lower
      → lower ≤ upper
      → upper < 2 ^ 64
      → s.left ≡ (0, l ∷ []) ∷ []
      → (in_bounds lower upper 0 t ≡ false)
        × (send_matches lower upper join_fn out key t (right r) s d
            ≡ for_each (λ x. join_pair join_fn out key x (t, r)) ((0, l) ∷ []) d)
  early_right_joins key t l r s d lt le u h = (
    ground arith,
    over_range-runs (sub_duration t upper) (sub_duration t lower)
          (send_left join_fn out key (t, r)
            (range (sub_duration t upper) (sub_duration t lower) s.left))
          d (ground arith)
        ∙ send_left-stamped join_fn out key (t, r)
            (range (sub_duration t upper) (sub_duration t lower) s.left) d
        ∙ ap (λ m. for_each (λ x. join_pair join_fn out key x (t, r)) (stamped m) d) kept,
  )
    where
      kept : range (sub_duration t upper) (sub_duration t lower) s.left ≡ (0, l ∷ []) ∷ []
      kept = rw h (ground arith)
