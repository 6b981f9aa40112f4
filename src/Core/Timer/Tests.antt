-- ===== src/Core/Timer/Tests.antt =====
-- The theorems on timer.rs at a queue of two timers.
use flume_rs.Base.{◌≡◌, ◌↔◌, inl, inr, refl, [], ◌∷◌, not, filter, In, true, arith}
use flume_rs.Core.Time.{timestamp_max}
use flume_rs.Core.Timer.{Timer, TimerQueue, fire_event_time_up_to, fire_processing_time_up_to}
use flume_rs.Core.Timer.Fire.{is_due, fire_splits, fire_at_max}
use flume_rs.Core.Timer.Register.{IsValid, Op, apply, InEventTime, InProcessingTime, apply_timers}

abbrev two_timers : TimerQueue
two_timers = record {
  event_time_timers = (5, 1 ∷ []) ∷ (timestamp_max, 1 ∷ []) ∷ [];
  processing_time_timers = (7, []) ∷ [];
}

two_timers-IsValid : IsValid two_timers
two_timers-IsValid = record { event_time = ((refl, tt), (tt, tt)); processing_time = (tt, tt) }

fire_splits_example :
    (fire_event_time_up_to two_timers 6 ≡ (
      filter (is_due 6) two_timers.event_time_timers,
      record two_timers {
        event_time_timers = filter (λ t. not (is_due 6 t)) two_timers.event_time_timers;
      },
    ))
    × (fire_processing_time_up_to two_timers 6 ≡ (
      filter (is_due 6) two_timers.processing_time_timers,
      record two_timers {
        processing_time_timers = filter (λ t. not (is_due 6 t)) two_timers.processing_time_timers;
      },
    ))
fire_splits_example = fire_splits two_timers 6 (omega arith)

fire_at_max_example :
    (is_due timestamp_max (timestamp_max, 1 ∷ []) ≡ true)
    × ¬ In (timestamp_max, 1 ∷ []) (fire_event_time_up_to two_timers timestamp_max).0
    × In
        (timestamp_max, 1 ∷ [])
        (fire_event_time_up_to two_timers timestamp_max).1.event_time_timers
fire_at_max_example = fire_at_max two_timers (1 ∷ []) (inr (inl refl))

apply_timers_example :
    IsValid (apply two_timers (Op.registers 6 []))
    × ((t : Timer)
        → In t (apply two_timers (Op.registers 6 [])).event_time_timers
          ↔ InEventTime two_timers (Op.registers 6 []) t)
    × ((t : Timer)
        → In t (apply two_timers (Op.registers 6 [])).processing_time_timers
          ↔ InProcessingTime two_timers (Op.registers 6 []) t)
apply_timers_example = apply_timers two_timers (Op.registers 6 []) two_timers-IsValid
