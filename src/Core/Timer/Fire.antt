-- ===== src/Core/Timer/Fire.antt =====
-- Which timers of timer.rs fire.
use flume_rs.Base.{
  ◌<◌, ◌≡◌, refl, ap, List, [], ◌∷◌, Bool, true, false, not, filter, filter_ext, In, In-filter,
  holds_of_In-filter, leb, u64_max, arith,
}
use flume_rs.Base.Ord.{pair_ord, nat_ord, list_ord}
use flume_rs.Base.BTreeSet.{below, split_off}
use flume_rs.Core.Time.{EventTimestamp, timestamp_max}
use flume_rs.Core.Record.{Bytes}
use flume_rs.Core.Timer.{
  Timer, TimerQueue, split_point, fire_event_time_up_to, fire_processing_time_up_to,
}

-- A timer is due at a watermark.
abbrev pub is_due : EventTimestamp → Timer → Bool
is_due watermark t = leb t.0 watermark

pub list_lt-nil : (k : Bytes) → list_ord.lt k [] ≡ false
list_lt-nil [] = refl
list_lt-nil (b ∷ k) = refl

lt-split_point :
    (w : EventTimestamp) (t : Timer) → w < u64_max → pair_ord.lt t (split_point w) ≡ is_due w t
lt-split_point w t h = ground (arith, list_lt-nil t.1)

-- Below the last timestamp, `fire_event_time_up_to` fires exactly the event-time timers that are
-- due, keeps exactly the others, both in their order, and leaves the processing-time timers alone;
-- `fire_processing_time_up_to` does the same for the processing-time timers.
pub fire_splits :
    (q : TimerQueue) (w : EventTimestamp)
    → w < timestamp_max
    → let due = is_due w in
      (fire_event_time_up_to q w ≡ (
        filter due q.event_time_timers,
        record q { event_time_timers = filter (λ t. not (due t)) q.event_time_timers },
      ))
      × (fire_processing_time_up_to q w ≡ (
        filter due q.processing_time_timers,
        record q { processing_time_timers = filter (λ t. not (due t)) q.processing_time_timers },
      ))
unfolding fire_event_time_up_to fire_processing_time_up_to
fire_splits q w h = ground (
  arith,
  kept q.event_time_timers,
  gone q.event_time_timers,
  kept q.processing_time_timers,
  gone q.processing_time_timers,
)
  where
    gone : (ts : List Timer) → below (split_point w) ts ≡ filter (is_due w) ts
    gone ts = filter_ext _ _ ts (λ t. lt-split_point w t h)

    kept : (ts : List Timer) → split_off (split_point w) ts ≡ filter (λ t. not (is_due w t)) ts
    kept ts = filter_ext _ _ ts (λ t. ap not (lt-split_point w t h))

-- The last timestamp saturates: its timers do not lie below the split point.
lt-split_point_max : (key : Bytes) → pair_ord.lt (u64_max, key) (split_point u64_max) ≡ false
lt-split_point_max key = ground (arith, list_lt-nil key)

-- At the end-of-stream watermark a timer that is registered for that timestamp is due, is not
-- fired, and stays in the queue.
pub fire_at_max :
    (q : TimerQueue) (key : Bytes)
    → In (timestamp_max, key) q.event_time_timers
    → let (fired, q') = fire_event_time_up_to q timestamp_max in
      (is_due timestamp_max (timestamp_max, key) ≡ true)
      × ¬ In (timestamp_max, key) fired
      × In (timestamp_max, key) q'.event_time_timers
unfolding fire_event_time_up_to
fire_at_max q key m = (
  refl,
  (λ f.
      ground
        (arith, holds_of_In-filter (u64_max, key) _ q.event_time_timers f, lt-split_point_max key)),
  In-filter (u64_max, key) _ q.event_time_timers m (rw (lt-split_point_max key)),
)
