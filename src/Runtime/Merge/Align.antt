-- ===== src/Runtime/Merge/Align.antt =====
-- The alignment of barriers in merge.rs: what every round keeps, when both inputs carry the same
-- barriers.
use mathlib.Core.List.{append-nil, append_assoc}
use flume_rs.Base.{
  min, ◌≡◌, refl, List, [], ◌∷◌, ◌++◌, Bool, true, false, Option, none, some, arith,
}
use flume_rs.Core.Record.{CheckpointBarrier, StreamElement, rec, watermark, checkpoint_barrier}
use flume_rs.Core.Result.{for_each}
use flume_rs.Core.Collector.{recorder}
use flume_rs.Runtime.Merge.Views.{Output}
use flume_rs.Runtime.Merge.Cuts.{
  unwatermarked, barriers, held_element, held, left_view, right_view, left_view-append,
  right_view-append,
}
use flume_rs.Runtime.Merge.Step.{IsValid}
use flume_rs.Runtime.Merge.{
  Side, first, second, Merge, tag1, tag2, handle_element1, handle_element2, try_flush_barriers,
  wait_for_1, wait_for_2, read_1, read_2, read_open, dispatch, round, initial,
}

module _ {A B : Type 0} (all1 : List (StreamElement A)) (all2 : List (StreamElement B)) where
  -- What was sent, what is held back and what is still to come make up each input.
  pub record IsAligned (m : Merge A B) (sent : Output A B) : Type 0 where
    pub seen1 :
        left_view sent ++ (held_element m.pending_barrier_from_1 ++ unwatermarked m.input1)
        ≡ unwatermarked all1
    pub seen2 :
        right_view sent ++ (held_element m.pending_barrier_from_2 ++ unwatermarked m.input2)
        ≡ unwatermarked all2
    pub same :
        held m.pending_barrier_from_1 ++ barriers m.input1
        ≡ held m.pending_barrier_from_2 ++ barriers m.input2

  read_1-IsAligned :
      (m : Merge A B) (sent : Output A B) (xs : List (StreamElement A))
      → m.input1 ≡ xs
      → IsAligned m sent
      → m.pending_barrier_from_1 ≡ none
      → m.pending_barrier_from_2 ≡ none
      → let s = (read_1 recorder (m, sent)).1 in IsAligned s.0 s.1
  unfolding read_1 handle_element1
  read_1-IsAligned m sent [] e v p q = ground arith
  read_1-IsAligned m sent (rec r ∷ xs) e v p q = ground (
    arith,
    left_view-append sent (tag1 r ∷ []),
    right_view-append sent (tag1 r ∷ []),
    append_assoc (left_view sent) (rec r ∷ []) (unwatermarked xs),
    append-nil (right_view sent),
  )
  read_1-IsAligned m sent (watermark w ∷ xs) e v p q = ground (
    arith,
    left_view-append sent (watermark (record { timestamp = min w.timestamp m.watermark2 }) ∷ []),
    right_view-append sent (watermark (record { timestamp = min w.timestamp m.watermark2 }) ∷ []),
    append-nil (left_view sent),
    append-nil (right_view sent),
  )
  read_1-IsAligned m sent (checkpoint_barrier b ∷ xs) e v p q = ground arith

  read_2-IsAligned :
      (m : Merge A B) (sent : Output A B) (xs : List (StreamElement B))
      → m.input2 ≡ xs
      → IsAligned m sent
      → m.pending_barrier_from_1 ≡ none
      → m.pending_barrier_from_2 ≡ none
      → let s = (read_2 recorder (m, sent)).1 in IsAligned s.0 s.1
  unfolding read_2 handle_element2
  read_2-IsAligned m sent [] e v p q = ground arith
  read_2-IsAligned m sent (rec r ∷ xs) e v p q = ground (
    arith,
    right_view-append sent (tag2 r ∷ []),
    left_view-append sent (tag2 r ∷ []),
    append_assoc (right_view sent) (rec r ∷ []) (unwatermarked xs),
    append-nil (left_view sent),
  )
  read_2-IsAligned m sent (watermark w ∷ xs) e v p q = ground (
    arith,
    left_view-append sent (watermark (record { timestamp = min m.watermark1 w.timestamp }) ∷ []),
    right_view-append sent (watermark (record { timestamp = min m.watermark1 w.timestamp }) ∷ []),
    append-nil (left_view sent),
    append-nil (right_view sent),
  )
  read_2-IsAligned m sent (checkpoint_barrier b ∷ xs) e v p q = ground arith

  wait_for_1-IsAligned :
      (m : Merge A B) (sent : Output A B) (xs : List (StreamElement A)) (b : CheckpointBarrier)
      → m.input1 ≡ xs
      → m.buffer1 ≡ []
      → m.buffer2 ≡ []
      → IsAligned m sent
      → m.pending_barrier_from_2 ≡ some b
      → m.pending_barrier_from_1 ≡ none
      → let s = (wait_for_1 recorder (m, sent)).1 in IsAligned s.0 s.1
  unfolding wait_for_1 handle_element1 try_flush_barriers for_each
  wait_for_1-IsAligned m sent [] b e x y v p q = absurd (ground (arith, v.same))
  wait_for_1-IsAligned m sent (rec r ∷ xs) b e x y v p q = ground (
    arith,
    left_view-append sent (tag1 r ∷ []),
    right_view-append sent (tag1 r ∷ []),
    append_assoc (left_view sent) (rec r ∷ []) (unwatermarked xs),
    append-nil (right_view sent),
  )
  wait_for_1-IsAligned m sent (watermark w ∷ xs) b e x y v p q = ground (
    arith,
    left_view-append sent (watermark (record { timestamp = min w.timestamp m.watermark2 }) ∷ []),
    right_view-append sent (watermark (record { timestamp = min w.timestamp m.watermark2 }) ∷ []),
    append-nil (left_view sent),
    append-nil (right_view sent),
  )
  wait_for_1-IsAligned m sent (checkpoint_barrier c ∷ xs) b e x y v p q = ground (
    arith,
    left_view-append sent (checkpoint_barrier c ∷ []),
    right_view-append sent (checkpoint_barrier c ∷ []),
    append_assoc (right_view sent) (checkpoint_barrier c ∷ []) (unwatermarked m.input2),
    append_assoc (left_view sent) (checkpoint_barrier c ∷ []) (unwatermarked xs),
  )

  wait_for_2-IsAligned :
      (m : Merge A B) (sent : Output A B) (xs : List (StreamElement B)) (b : CheckpointBarrier)
      → m.input2 ≡ xs
      → m.buffer1 ≡ []
      → m.buffer2 ≡ []
      → IsAligned m sent
      → m.pending_barrier_from_1 ≡ some b
      → m.pending_barrier_from_2 ≡ none
      → let s = (wait_for_2 recorder (m, sent)).1 in IsAligned s.0 s.1
  unfolding wait_for_2 handle_element2 try_flush_barriers for_each
  wait_for_2-IsAligned m sent [] b e x y v p q = absurd (ground (arith, v.same))
  wait_for_2-IsAligned m sent (rec r ∷ xs) b e x y v p q = ground (
    arith,
    right_view-append sent (tag2 r ∷ []),
    left_view-append sent (tag2 r ∷ []),
    append_assoc (right_view sent) (rec r ∷ []) (unwatermarked xs),
    append-nil (left_view sent),
  )
  wait_for_2-IsAligned m sent (watermark w ∷ xs) b e x y v p q = ground (
    arith,
    left_view-append sent (watermark (record { timestamp = min m.watermark1 w.timestamp }) ∷ []),
    right_view-append sent (watermark (record { timestamp = min m.watermark1 w.timestamp }) ∷ []),
    append-nil (left_view sent),
    append-nil (right_view sent),
  )
  wait_for_2-IsAligned m sent (checkpoint_barrier c ∷ xs) b e x y v p q = ground (
    arith,
    left_view-append sent (checkpoint_barrier b ∷ []),
    right_view-append sent (checkpoint_barrier b ∷ []),
    append_assoc (left_view sent) (checkpoint_barrier b ∷ []) (unwatermarked m.input1),
    append_assoc (right_view sent) (checkpoint_barrier b ∷ []) (unwatermarked xs),
  )

  read_open-IsAligned :
      (choice : Side) (m : Merge A B) (sent : Output A B) (o1 o2 : Bool)
      → IsAligned m sent
      → m.pending_barrier_from_1 ≡ none
      → m.pending_barrier_from_2 ≡ none
      → let s = (read_open recorder choice o1 o2 (m, sent)).1 in IsAligned s.0 s.1
  read_open-IsAligned first m sent true true v p q = read_1-IsAligned m sent m.input1 refl v p q
  read_open-IsAligned second m sent true true v p q = read_2-IsAligned m sent m.input2 refl v p q
  read_open-IsAligned choice m sent true false v p q = read_1-IsAligned m sent m.input1 refl v p q
  read_open-IsAligned choice m sent false true v p q = read_2-IsAligned m sent m.input2 refl v p q
  read_open-IsAligned choice m sent false false v p q = v

  dispatch-IsAligned :
      (choice : Side) (m : Merge A B) (sent : Output A B) (p1 p2 : Option CheckpointBarrier)
      → m.pending_barrier_from_1 ≡ p1
      → m.pending_barrier_from_2 ≡ p2
      → IsValid all1 all2 m sent
      → IsAligned m sent
      → let s = (dispatch recorder choice p1 p2 (m, sent)).1 in IsAligned s.0 s.1
  dispatch-IsAligned choice m sent none none p q i v =
      read_open-IsAligned choice m sent m.input1_open m.input2_open v p q
  dispatch-IsAligned choice m sent none (some b) p q i v =
      wait_for_1-IsAligned m sent m.input1 b refl i.unbuffered1 i.unbuffered2 v q p
  dispatch-IsAligned choice m sent (some b) none p q i v =
      wait_for_2-IsAligned m sent m.input2 b refl i.unbuffered1 i.unbuffered2 v p q
  dispatch-IsAligned choice m sent (some b) (some c) p q i v = absurd (ground (arith, i.one_waits))

  pub round-IsAligned :
      (choice : Side) (m : Merge A B) (sent : Output A B)
      → IsValid all1 all2 m sent
      → IsAligned m sent
      → let s = (round recorder choice (m, sent)).1 in IsAligned s.0 s.1
  unfolding round
  round-IsAligned choice m sent i v =
      dispatch-IsAligned choice m sent m.pending_barrier_from_1 m.pending_barrier_from_2 refl refl i
        v

  pub initial-IsAligned : barriers all1 ≡ barriers all2 → IsAligned (initial all1 all2) []
  initial-IsAligned h = ground arith
