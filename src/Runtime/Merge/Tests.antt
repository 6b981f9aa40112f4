-- ===== src/Runtime/Merge/Tests.antt =====
-- The theorems on merge.rs at two short inputs.
use flume_rs.Base.{ℕ, ◌≡◌, refl, List, [], ◌∷◌, true, replicate, arith}
use flume_rs.Core.Record.{
  StreamElement, rec, watermark, checkpoint_barrier, CheckpointBarrier, new, left, right,
}
use flume_rs.Core.Result.{ok, for_each}
use flume_rs.Core.Collector.{recorder}
use flume_rs.Runtime.Merge.{
  Side, first, initial, round, two_input_merge, wait_for_1, wait_for_2, handle_element1,
  handle_element2, try_flush_barriers, read_1, read_2,
}
use flume_rs.Runtime.Merge.Views.{Output, lefts, rights, records, Rises}
use flume_rs.Runtime.Merge.Cuts.{unwatermarked, left_view, right_view}
use flume_rs.Runtime.Merge.Total.{two_input_merge_total}
use flume_rs.Runtime.Merge.Barriers.{merge_aligns}
use flume_rs.Runtime.Merge.Unmatched.{uniform, merge_aligns_unmatched}

abbrev barrier : ℕ → CheckpointBarrier
barrier n = record { checkpoint_id = n; timestamp = 0 }

abbrev input1 : List (StreamElement ℕ)
input1 = rec (new 1 10) ∷ checkpoint_barrier (barrier 1) ∷ rec (new 2 20) ∷ []

abbrev input2 : List (StreamElement ℕ)
input2 = rec (new 5 10) ∷ watermark (record { timestamp = 9 }) ∷ checkpoint_barrier (barrier 1) ∷ []

abbrev choices : List Side
choices = replicate 14 first

abbrev nothing_sent : Output ℕ ℕ
nothing_sent = []

two_input_merge_total_example :
    let r = two_input_merge recorder choices (initial input1 input2, nothing_sent) in
    (r.0 ≡ ok true)
    × (lefts r.1.1 ≡ records input1)
    × (rights r.1.1 ≡ records input2)
    × Rises 0 r.1.1 r.1.0.last_forwarded_watermark
two_input_merge_total_example = two_input_merge_total input1 input2 choices (omega arith)

merge_aligns_example :
    let sent = (two_input_merge recorder choices (initial input1 input2, nothing_sent)).1.1 in
    (left_view sent ≡ unwatermarked input1) × (right_view sent ≡ unwatermarked input2)
merge_aligns_example = merge_aligns input1 input2 choices (omega arith) refl

-- As `input2`, with a barrier of another checkpoint.
abbrev other2 : List (StreamElement ℕ)
other2 = rec (new 5 10) ∷ checkpoint_barrier (barrier 2) ∷ rec (new 6 30) ∷ []

merge_aligns_unmatched_example :
    let sent = (two_input_merge recorder choices (initial input1 other2, nothing_sent)).1.1 in
    (left_view (uniform (barrier 0) sent) ≡ unwatermarked (uniform (barrier 0) input1))
    × (right_view (uniform (barrier 0) sent) ≡ unwatermarked (uniform (barrier 0) other2))
merge_aligns_unmatched_example =
    merge_aligns_unmatched input1 other2 choices (barrier 0) (omega arith) refl

-- The barrier of input 1 is the one that is sent.
unmatched_run :
    (two_input_merge recorder choices (initial input1 other2, nothing_sent)).1.1
    ≡ rec (new (left 1) 10)
      ∷ rec (new (right 5) 10)
      ∷ checkpoint_barrier (barrier 1)
      ∷ rec (new (left 2) 20)
      ∷ rec (new (right 6) 30)
      ∷ []
unfolding two_input_merge round wait_for_1 wait_for_2 handle_element1 handle_element2
    try_flush_barriers for_each read_1 read_2
unmatched_run = refl
