-- ===== src/Core/Timer.antt =====
-- crates/flume-core/src/timer.rs: the timer queue and the timer service. The two sets of the
-- queue are ordered by timestamp, then by key. The wall clock is an argument.
pub mod Fire
pub mod Register
mod Tests
use flume_rs.Base.{ℕ, ◌%◌, ◌^◌, List, [], saturating_add}
use flume_rs.Base.Ord.{pair_ord, nat_ord, list_ord}
use flume_rs.Base.BTreeSet
use flume_rs.Core.Time.{EventTimestamp, timestamp_min}
use flume_rs.Core.Record.{Bytes}

abbrev pub Timer : Type 0
Timer = EventTimestamp × Bytes

pub record TimerQueue : Type 0 where
  pub event_time_timers : List Timer
  pub processing_time_timers : List Timer

abbrev pub new_queue : TimerQueue
new_queue = record { event_time_timers = []; processing_time_timers = [] }

module _ (q : TimerQueue) (timestamp : EventTimestamp) (key : Bytes) where
  unfoldable pub register_event_time : TimerQueue
  register_event_time = record q {
    event_time_timers = BTreeSet.insert (timestamp, key) q.event_time_timers;
  }

  unfoldable pub delete_event_time : TimerQueue
  delete_event_time = record q {
    event_time_timers = BTreeSet.remove (timestamp, key) q.event_time_timers;
  }

  unfoldable pub register_processing_time : TimerQueue
  register_processing_time = record q {
    processing_time_timers = BTreeSet.insert (timestamp, key) q.processing_time_timers;
  }

  unfoldable pub delete_processing_time : TimerQueue
  delete_processing_time = record q {
    processing_time_timers = BTreeSet.remove (timestamp, key) q.processing_time_timers;
  }

-- The first timer that does not fire.
abbrev pub split_point : EventTimestamp → Timer
split_point watermark = (saturating_add watermark 1, [])

-- The fired timers, and the queue without them.
unfoldable pub fire_event_time_up_to : TimerQueue → EventTimestamp → List Timer × TimerQueue
fire_event_time_up_to q watermark =
    let remaining = BTreeSet.split_off (split_point watermark) q.event_time_timers in
    let fired = BTreeSet.below (split_point watermark) q.event_time_timers in
    (fired, record q { event_time_timers = remaining })

unfoldable pub fire_processing_time_up_to : TimerQueue → EventTimestamp → List Timer × TimerQueue
fire_processing_time_up_to q time =
    let remaining = BTreeSet.split_off (split_point time) q.processing_time_timers in
    let fired = BTreeSet.below (split_point time) q.processing_time_timers in
    (fired, record q { processing_time_timers = remaining })

pub record TimerService : Type 0 where
  pub queue : TimerQueue
  pub current_watermark : EventTimestamp
  pub current_key : Bytes

abbrev pub new_service : TimerService
new_service = record { queue = new_queue; current_watermark = timestamp_min; current_key = [] }

abbrev pub set_current_key : TimerService → Bytes → TimerService
set_current_key s key = record s { current_key = key }

abbrev pub set_watermark : TimerService → EventTimestamp → TimerService
set_watermark s watermark = record s { current_watermark = watermark }

-- The methods of the trait `TimerService`, which act for the current key.
unfoldable pub register_event_time_timer : TimerService → EventTimestamp → TimerService
register_event_time_timer s time = record s {
  queue = register_event_time s.queue time s.current_key;
}

unfoldable pub delete_event_time_timer : TimerService → EventTimestamp → TimerService
delete_event_time_timer s time = record s { queue = delete_event_time s.queue time s.current_key }

unfoldable pub register_processing_time_timer : TimerService → EventTimestamp → TimerService
register_processing_time_timer s time = record s {
  queue = register_processing_time s.queue time s.current_key;
}

unfoldable pub delete_processing_time_timer : TimerService → EventTimestamp → TimerService
delete_processing_time_timer s time = record s {
  queue = delete_processing_time s.queue time s.current_key;
}

-- `now` is the milliseconds since the epoch that the clock gives.
abbrev pub current_processing_time : ℕ → EventTimestamp
current_processing_time now = now % 2 ^ 64
