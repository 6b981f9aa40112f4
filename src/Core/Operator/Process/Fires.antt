-- ===== src/Core/Operator/Process/Fires.antt =====
-- Which timers the `process_watermark` of crates/flume-core/src/operator/process.rs fires.
use flume_rs.Base.{
  ℕ, suc, ◌<◌, ◌≡◌, refl, ap, sym, ◌∙◌, List, [], Option, ◌∷◌, ◌++◌, map, take, not, filter,
}
use mathlib.Core.List.{append_assoc, append-nil}
use flume_rs.Core.Time.{EventTimestamp, timestamp_max}
use flume_rs.Core.Record.{Bytes, Watermark}
use flume_rs.Core.Result.{FlumeResult, Run, ok, err, panic, and_then, for_each, on_second}
use flume_rs.Core.Timer.{Timer, set_current_key}
use flume_rs.Core.Timer.Fire.{is_due, fire_splits}
use flume_rs.Core.Collector.{Collector}
use flume_rs.Core.Process.{KeyedProcessFunction, OnTimerContext}
use flume_rs.Core.Operator.Process.{ProcessOperator, fire_timer, timer_done, take_fired}
use flume_rs.Core.Operator.Process.Keyed.{process_watermark}

-- What a call of `on_timer` is given: the timestamp, the key, the watermark that the context shows
-- and the key that the timer service acts for.
abbrev pub Seen : Type 0
Seen = EventTimestamp × Bytes × EventTimestamp × Bytes

abbrev pub seen_at : Watermark → Timer → Seen
seen_at w (t, k) = (t, k, w.timestamp, k)

abbrev logged_done :
    {P X C : Type 0}
    → Seen
    → List Seen
    → FlumeResult (Unit {0}) × (P × X × C)
    → FlumeResult (Unit {0}) × ((P × List Seen) × X × C)
logged_done x log (r, (p, ctx, c)) = (r, ((p, log ++ x ∷ []), ctx, c))

-- The function, with a list of the calls of its `on_timer` beside its state.
abbrev pub logged :
    {P E C In Out : Type 0}
    → KeyedProcessFunction P E C In Out
    → KeyedProcessFunction (P × List Seen) E C In Out
logged f = record {
  process_element = λ k v out ((p, log), ctx, c).
      let (r, (p', ctx', c')) = f.process_element k v out (p, ctx, c) in (r, ((p', log), ctx', c'));
  on_timer = λ t k out ((p, log), ctx, c).
      logged_done (t, k, ctx.current_watermark, ctx.timer_service.current_key) log
        (f.on_timer t k out (p, ctx, c));
}

-- A run over the timers `ts` has logged the first `n` of them, and all of them if it ended well.
abbrev pub Logs :
    {P E C : Type 0}
    → Watermark
    → List Seen
    → List Timer
    → FlumeResult (Unit {0}) × (ProcessOperator (P × List Seen) E × C)
    → Type 0
Logs w log ts (r, (op, c)) =
    ((n : ℕ) × (op.process_fn.1 ≡ log ++ map (seen_at w) (take n ts)))
    × (r ≡ ok tt → op.process_fn.1 ≡ log ++ map (seen_at w) ts)

module _ {P E C : Type 0} where
  Logs-step :
      (w : Watermark) (log : List Seen) (t : Timer) (ts : List Timer) (e : Option E)
      (res : FlumeResult (Unit {0}) × (P × OnTimerContext × C))
      (k : Run (ProcessOperator (P × List Seen) E × C) (Unit {0}))
      → ((op : ProcessOperator (P × List Seen) E) (c : C) → Logs w op.process_fn.1 ts (k (op, c)))
      → Logs w log (t ∷ ts) (and_then (timer_done e (logged_done (seen_at w t) log res)) (λ _. k))
  Logs-step w log t ts e (ok u, (p, ctx, c)) k ih =
      let h =
        ih
          (record {
            process_fn = (p, log ++ seen_at w t ∷ []);
            timer_service = ctx.timer_service;
            side_outputs = e;
          })
          c in
      (
        (suc h.0.0, h.0.1 ∙ append_assoc log (seen_at w t ∷ []) (map (seen_at w) (take h.0.0 ts))),
        λ q. h.1 q ∙ append_assoc log (seen_at w t ∷ []) (map (seen_at w) ts),
      )
  Logs-step w log t ts e (err x, (p, ctx, c)) k ih = ((1, refl), λ q. cc)
  Logs-step w log t ts e (panic, (p, ctx, c)) k ih = ((1, refl), λ q. cc)

  -- Work on the collector does not change the log.
  collected-Logs :
      (w : Watermark) (log : List Seen) (ts : List Timer)
      (r : FlumeResult (Unit {0}) × (ProcessOperator (P × List Seen) E × C)) (m : Run C (Unit {0}))
      → Logs w log ts r
      → Logs w log ts (and_then r (λ _. on_second m))
  collected-Logs w log ts (ok u, (op, c)) m h = (h.0, λ _. h.1 refl)
  collected-Logs w log ts (err e, (op, c)) m h = h
  collected-Logs w log ts (panic, (op, c)) m h = h

module _ {P E : Type 0} (op : ProcessOperator P E) (w : Watermark) where
  abbrev pub due_timers : List Timer
  due_timers = filter (is_due w.timestamp) op.timer_service.queue.event_time_timers

  -- The operator with its watermark set and without the timers that are due.
  abbrev pub taken : ProcessOperator P E
  taken =
      let q = op.timer_service.queue in
      record op {
        timer_service = record op.timer_service {
          current_watermark = w.timestamp;
          queue = record q {
            event_time_timers = filter (λ t. not (is_due w.timestamp t)) q.event_time_timers;
          };
        };
      }

  take_fired_splits : w.timestamp < timestamp_max → take_fired op w ≡ (due_timers, taken)
  unfolding take_fired
  take_fired_splits h = rw ((fire_splits op.timer_service.queue w.timestamp h).0) refl

module _ {P E C In Out : Type 0} (f : KeyedProcessFunction P E C In Out) (out : Collector C Out)
    (w : Watermark) where
  loop-Logs :
      (ts : List Timer) (op : ProcessOperator (P × List Seen) E) (c : C)
      → Logs w op.process_fn.1 ts
          (for_each (fire_timer (λ t k. (logged f).on_timer t k out) w) ts (op, c))
  unfolding for_each
  loop-Logs [] op c = ((0, sym (append-nil op.process_fn.1)), λ q. sym (append-nil op.process_fn.1))
  loop-Logs ((t, k) ∷ ts) op c =
      let timers = set_current_key op.timer_service k in
      Logs-step w op.process_fn.1 (t, k) ts op.side_outputs
        (f.on_timer t k out
          (op.process_fn.0, record { current_watermark = w.timestamp; timer_service = timers }, c))
        (for_each (fire_timer (λ t' k'. (logged f).on_timer t' k' out) w) ts) (loop-Logs ts)

  -- At a watermark below the last timestamp, `process_watermark` calls `on_timer` only for the
  -- event-time timers in the queue at the start of the call that are due, in the order of the queue, each
  -- with the watermark and with the timer's key as the current key: it has called a first part of
  -- them when it ends, and all of them if it returns without an error. Timers that the calls
  -- register do not fire, due or not.
  pub process_watermark_fires_due :
      (op : ProcessOperator (P × List Seen) E) (c : C)
      → w.timestamp < timestamp_max
      → Logs w op.process_fn.1 (due_timers op w) (process_watermark (logged f) out w (op, c))
  unfolding process_watermark
  process_watermark_fires_due op c h = rw (take_fired_splits op w h) (
      collected-Logs w op.process_fn.1 (due_timers op w)
        (for_each (fire_timer (λ t k. (logged f).on_timer t k out) w) (due_timers op w)
          (taken op w, c))
        (out.collect_watermark w) (loop-Logs (due_timers op w) (taken op w) c))

-- A function whose `on_timer` leaves the timer service as it was.
abbrev pub LeavesTimers :
    {P E C In Out : Type 0} → KeyedProcessFunction P E C In Out → Collector C Out → Type 0
LeavesTimers {P = P} {C = C} f out =
    (t : EventTimestamp) (key : Bytes) (p : P) (ctx : OnTimerContext) (c : C)
    → (f.on_timer t key out (p, ctx, c)).1.1.timer_service ≡ ctx.timer_service

-- The operator after a run has the queue, the watermark and the emitter that `op` has.
abbrev pub Settles :
    {P E C : Type 0}
    → ProcessOperator P E
    → FlumeResult (Unit {0}) × (ProcessOperator P E × C)
    → Type 0
Settles op (r, (op', c)) =
    (op'.timer_service.queue ≡ op.timer_service.queue)
    × (op'.timer_service.current_watermark ≡ op.timer_service.current_watermark)
    × (op'.side_outputs ≡ op.side_outputs)

module _ {P E C : Type 0} (op : ProcessOperator P E)
    (k : Run (ProcessOperator P E × C) (Unit {0})) where
  Settles-and_then :
      (r : FlumeResult (Unit {0}) × (ProcessOperator P E × C))
      → Settles op r
      → ((op' : ProcessOperator P E) (c : C)
          → Settles op (ok tt, (op', c))
          → Settles op (k (op', c)))
      → Settles op (and_then r (λ _. k))
  Settles-and_then (ok u, (op', c)) h ih = ih op' c h
  Settles-and_then (err e, (op', c)) h ih = h
  Settles-and_then (panic, (op', c)) h ih = h

module _ {P E C In Out : Type 0} (f : KeyedProcessFunction P E C In Out) (out : Collector C Out)
    (w : Watermark) where
  loop-Settles :
      (op : ProcessOperator P E) (ts : List Timer) (op' : ProcessOperator P E) (c : C)
      → LeavesTimers f out
      → Settles op (ok tt, (op', c))
      → Settles op (for_each (fire_timer (λ t k. f.on_timer t k out) w) ts (op', c))
  unfolding for_each
  loop-Settles op [] op' c leaves h = h
  loop-Settles op ((t, k) ∷ ts) op' c leaves h =
      let e =
        leaves t k op'.process_fn
          (record {
            current_watermark = w.timestamp;
            timer_service = set_current_key op'.timer_service k;
          })
          c in
      Settles-and_then op (for_each (fire_timer (λ t' k'. f.on_timer t' k' out) w) ts)
        (fire_timer (λ t' k'. f.on_timer t' k' out) w (t, k) (op', c))
        (ap (λ s. s.queue) e ∙ h.0, ap (λ s. s.current_watermark) e ∙ h.1, h.2)
        (λ op2 c2 h2. loop-Settles op ts op2 c2 leaves h2)

  -- With a function whose `on_timer` leaves the timer service alone, `process_watermark` at a
  -- watermark below the last timestamp sets the watermark, keeps the emitter, and takes every
  -- timer that is due out of the queue, whatever the outcome: also when a call of `on_timer` fails
  -- and the due timers after it are not called.
  pub process_watermark-Settles :
      (op : ProcessOperator P E) (c : C)
      → LeavesTimers f out
      → w.timestamp < timestamp_max
      → Settles (taken op w) (process_watermark f out w (op, c))
  unfolding process_watermark
  process_watermark-Settles op c leaves h = rw (take_fired_splits op w h) (
      Settles-and_then (taken op w) (on_second (out.collect_watermark w))
        (for_each (fire_timer (λ t k. f.on_timer t k out) w) (due_timers op w) (taken op w, c))
        (loop-Settles (taken op w) (due_timers op w) (taken op w) c leaves (refl, refl, refl))
        (λ op2 c2 h2. h2))
