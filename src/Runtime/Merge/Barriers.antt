-- ===== src/Runtime/Merge/Barriers.antt =====
-- Where the barriers stand in the output of merge.rs.
use mathlib.Core.List.{append-nil}
use flume_rs.Base.{◌+◌, ◌*◌, ◌≤◌, ◌≡◌, List, [], ◌∷◌, length, Bool-cases, inl, inr, arith}
use flume_rs.Core.Record.{StreamElement}
use flume_rs.Core.Result.{after_ok}
use flume_rs.Core.Collector.{recorder}
use flume_rs.Runtime.Merge.Views.{Output}
use flume_rs.Runtime.Merge.Cuts.{unwatermarked, barriers, left_view, right_view}
use flume_rs.Runtime.Merge.Step.{IsValid, round-Keeps, initial-IsValid}
use flume_rs.Runtime.Merge.Align.{IsAligned, round-IsAligned, initial-IsAligned}
use flume_rs.Runtime.Merge.Total.{run-IsValid}
use flume_rs.Runtime.Merge.{Side, Merge, round, is_done, initial, two_input_merge}

module _ {A B : Type 0} (all1 : List (StreamElement A)) (all2 : List (StreamElement B)) where
  run-IsAligned :
      (choices : List Side) (m : Merge A B) (sent : Output A B)
      → IsValid all1 all2 m sent
      → IsAligned all1 all2 m sent
      → let r = two_input_merge recorder choices (m, sent) in IsAligned all1 all2 r.1.0 r.1.1
  unfolding two_input_merge
  run-IsAligned [] m sent i v = v
  run-IsAligned (choice ∷ choices) m sent i v = elim (Bool-cases (is_done m)) [
    | inl e ↦ rw e v
    | inr e ↦
        let k = round-Keeps all1 all2 choice m sent i in
        let s = (round recorder choice (m, sent)).1 in
        rw
          (
            e,
            after_ok (round recorder choice (m, sent)) tt (λ _. two_input_merge recorder choices)
                k.0,
          )
          (run-IsAligned choices s.0 s.1 k.1 (round-IsAligned all1 all2 choice m sent i v))
  ]

  -- For two finite inputs that carry the same barriers, whatever the schedule (of the length that
  -- suffices for the end), the output is cut by the barriers as each input is: its records of
  -- input 1 and its barriers are input 1 without its watermarks, and likewise for input 2. So each
  -- barrier is sent once, after every record that precedes it on either input and before every
  -- record that follows it.
  pub merge_aligns :
      (choices : List Side)
      → 2 * length all1 + 2 * length all2 + 2 ≤ length choices
      → barriers all1 ≡ barriers all2
      → let sent = (two_input_merge recorder choices (initial all1 all2, [])).1.1 in
        (left_view sent ≡ unwatermarked all1) × (right_view sent ≡ unwatermarked all2)
  merge_aligns choices h same =
      let start = initial-IsValid all1 all2 in
      let r = two_input_merge recorder choices (initial all1 all2, []) in
      ground (
        arith,
        run-IsValid all1 all2 choices (initial all1 all2) [] start (omega arith),
        run-IsAligned choices (initial all1 all2) [] start (initial-IsAligned all1 all2 same),
        append-nil (left_view r.1.1),
        append-nil (right_view r.1.1),
      )
