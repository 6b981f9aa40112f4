-- ===== src/Core/Timer/Register.antt =====
-- The timer queue of timer.rs as two sets: what registering and deleting does to their members,
-- and that every operation keeps them in order.
use flume_rs.Base.{
  ◌≡◌, ◌≢◌, ◌≤◌, ◌<◌, ◌⊎◌, ◌↔◌, In, In-filter, holds_of_In-filter, In_of_In-filter, List, true, not,
  arith,
}
use flume_rs.Base.Ord.{pair_ord, nat_ord, list_ord}
use flume_rs.Base.BTreeSet.{
  split_off, IsAscending, insert-IsAscending, remove-IsAscending, filter-IsAscending, In-insert_iff,
  In-remove_iff,
}
use flume_rs.Core.Time.{EventTimestamp, timestamp_max}
use flume_rs.Core.Record.{Bytes}
use flume_rs.Core.Timer.Fire.{list_lt-nil}
use flume_rs.Core.Timer.{
  split_point, Timer, TimerQueue, TimerService, register_event_time, delete_event_time,
  register_processing_time, delete_processing_time, fire_event_time_up_to,
  fire_processing_time_up_to, register_event_time_timer, delete_event_time_timer,
}

-- Both sets are in ascending order, so that no timer stands twice.
pub record IsValid (q : TimerQueue) : Type 0 where
  pub event_time : IsAscending q.event_time_timers
  pub processing_time : IsAscending q.processing_time_timers

-- The calls that change a queue.
pub data Op : Type 0 where
  registers deletes registers_processing deletes_processing : EventTimestamp → Bytes → Op
  fires fires_processing : EventTimestamp → Op

abbrev pub apply : TimerQueue → Op → TimerQueue
apply q (Op.registers t k) = register_event_time q t k
apply q (Op.deletes t k) = delete_event_time q t k
apply q (Op.registers_processing t k) = register_processing_time q t k
apply q (Op.deletes_processing t k) = delete_processing_time q t k
apply q (Op.fires t) = (fire_event_time_up_to q t).1
apply q (Op.fires_processing t) = (fire_processing_time_up_to q t).1

apply-IsValid : (q : TimerQueue) (op : Op) → IsValid q → IsValid (apply q op)
unfolding register_event_time delete_event_time register_processing_time delete_processing_time
    fire_event_time_up_to fire_processing_time_up_to
apply-IsValid q (Op.registers t k) v = record {
  event_time = insert-IsAscending (t, k) q.event_time_timers v.event_time;
  processing_time = v.processing_time;
}
apply-IsValid q (Op.deletes t k) v = record {
  event_time = remove-IsAscending (t, k) q.event_time_timers v.event_time;
  processing_time = v.processing_time;
}
apply-IsValid q (Op.registers_processing t k) v = record {
  event_time = v.event_time;
  processing_time = insert-IsAscending (t, k) q.processing_time_timers v.processing_time;
}
apply-IsValid q (Op.deletes_processing t k) v = record {
  event_time = v.event_time;
  processing_time = remove-IsAscending (t, k) q.processing_time_timers v.processing_time;
}
apply-IsValid q (Op.fires t) v = record {
  event_time = filter-IsAscending _ q.event_time_timers v.event_time;
  processing_time = v.processing_time;
}
apply-IsValid q (Op.fires_processing t) v = record {
  event_time = v.event_time;
  processing_time = filter-IsAscending _ q.processing_time_timers v.processing_time;
}

-- For a valid queue, the event-time timers after a registration by the service are those before
-- and the one for the given time and the current key; after a deletion they are those before
-- without that one.
pub timers_of_service :
    (s : TimerService) (time : EventTimestamp) (t : Timer)
    → IsValid s.queue
    → (In t (register_event_time_timer s time).queue.event_time_timers
        ↔ ((t ≡ (time, s.current_key)) ⊎ In t s.queue.event_time_timers))
      × (In t (delete_event_time_timer s time).queue.event_time_timers
          ↔ ((t ≢ (time, s.current_key)) × In t s.queue.event_time_timers))
unfolding register_event_time_timer delete_event_time_timer register_event_time delete_event_time
timers_of_service s time t v = (
  In-insert_iff t (time, s.current_key) s.queue.event_time_timers,
  In-remove_iff t (time, s.current_key) s.queue.event_time_timers v.event_time,
)

-- The timers of either set after a call, told from those before. A timer stays after a firing if it
-- lies beyond the watermark, or at the last timestamp, where the split point saturates.
abbrev pub Stays : EventTimestamp → Timer → Type 0
Stays w t = (w < t.0) ⊎ (timestamp_max ≤ t.0)

abbrev pub InEventTime : TimerQueue → Op → Timer → Type 0
InEventTime q (Op.registers time k) t = (t ≡ (time, k)) ⊎ In t q.event_time_timers
InEventTime q (Op.deletes time k) t = (t ≢ (time, k)) × In t q.event_time_timers
InEventTime q (Op.fires w) t = In t q.event_time_timers × Stays w t
InEventTime q (Op.registers_processing time k) t = In t q.event_time_timers
InEventTime q (Op.deletes_processing time k) t = In t q.event_time_timers
InEventTime q (Op.fires_processing w) t = In t q.event_time_timers

abbrev pub InProcessingTime : TimerQueue → Op → Timer → Type 0
InProcessingTime q (Op.registers_processing time k) t =
    (t ≡ (time, k)) ⊎ In t q.processing_time_timers
InProcessingTime q (Op.deletes_processing time k) t =
    (t ≢ (time, k)) × In t q.processing_time_timers
InProcessingTime q (Op.fires_processing w) t = In t q.processing_time_timers × Stays w t
InProcessingTime q (Op.registers time k) t = In t q.processing_time_timers
InProcessingTime q (Op.deletes time k) t = In t q.processing_time_timers
InProcessingTime q (Op.fires w) t = In t q.processing_time_timers

kept_iff :
    (w : EventTimestamp) (t : Timer) → (not (pair_ord.lt t (split_point w)) ≡ true) ↔ Stays w t
kept_iff w t = ground (arith, list_lt-nil t.1)

In-split_off :
    (w : EventTimestamp) (t : Timer) (ts : List Timer)
    → In t (split_off (split_point w) ts) ↔ (In t ts × Stays w t)
In-split_off w t ts = (
  (λ h. (In_of_In-filter t _ ts h, (kept_iff w t).0 (holds_of_In-filter t _ ts h))),
  λ h. In-filter t _ ts h.0 ((kept_iff w t).1 h.1),
)

same : {A : Type 0} → A ↔ A
same = ((λ h. h), λ h. h)

event_time_lem :
    (q : TimerQueue) (op : Op) (t : Timer)
    → IsValid q
    → In t (apply q op).event_time_timers ↔ InEventTime q op t
unfolding register_event_time delete_event_time register_processing_time delete_processing_time
    fire_event_time_up_to fire_processing_time_up_to
event_time_lem q (Op.registers time k) t v = In-insert_iff t (time, k) q.event_time_timers
event_time_lem q (Op.deletes time k) t v =
    In-remove_iff t (time, k) q.event_time_timers v.event_time
event_time_lem q (Op.fires w) t v = In-split_off w t q.event_time_timers
event_time_lem q (Op.registers_processing time k) t v = same
event_time_lem q (Op.deletes_processing time k) t v = same
event_time_lem q (Op.fires_processing w) t v = same

processing_time_lem :
    (q : TimerQueue) (op : Op) (t : Timer)
    → IsValid q
    → In t (apply q op).processing_time_timers ↔ InProcessingTime q op t
unfolding register_event_time delete_event_time register_processing_time delete_processing_time
    fire_event_time_up_to fire_processing_time_up_to
processing_time_lem q (Op.registers_processing time k) t v =
    In-insert_iff t (time, k) q.processing_time_timers
processing_time_lem q (Op.deletes_processing time k) t v =
    In-remove_iff t (time, k) q.processing_time_timers v.processing_time
processing_time_lem q (Op.fires_processing w) t v = In-split_off w t q.processing_time_timers
processing_time_lem q (Op.registers time k) t v = same
processing_time_lem q (Op.deletes time k) t v = same
processing_time_lem q (Op.fires w) t v = same

-- Every call on a valid queue, whose two sets ascend without repetition, leaves a valid queue. A
-- registration adds the timer of that time and key to its set and no other timer; a deletion takes
-- it away and no other; a firing at a watermark keeps exactly the timers of its set that lie beyond
-- the watermark, or at the last timestamp. The other set keeps its timers.
pub apply_timers :
    (q : TimerQueue) (op : Op)
    → IsValid q
    → IsValid (apply q op)
      × ((t : Timer) → In t (apply q op).event_time_timers ↔ InEventTime q op t)
      × ((t : Timer) → In t (apply q op).processing_time_timers ↔ InProcessingTime q op t)
apply_timers q op v =
    (apply-IsValid q op v, (λ t. event_time_lem q op t v), λ t. processing_time_lem q op t v)
