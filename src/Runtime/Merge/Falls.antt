-- ===== src/Runtime/Merge/Falls.antt =====
-- Every round of the merger of merge.rs comes nearer to its end.
use flume_rs.Base.{
  ℕ, ◌+◌, ◌*◌, ◌<◌, ◌≡◌, ◌⊎◌, refl, List, [], ◌∷◌, Bool, true, false, Option, none, some, length,
  is_some, arith,
}
use flume_rs.Core.Record.{CheckpointBarrier, StreamElement, rec, watermark, checkpoint_barrier}
use flume_rs.Core.Result.{for_each}
use flume_rs.Core.Collector.{recorder}
use flume_rs.Runtime.Merge.Views.{Output}
use flume_rs.Runtime.Merge.Step.{IsValid}
use flume_rs.Runtime.Merge.{
  Side, first, second, Merge, handle_element1, handle_element2, try_flush_barriers, wait_for_1,
  wait_for_2, read_1, read_2, read_open, dispatch, round, is_done,
}

abbrev pub bit : Bool → ℕ
bit true = 1
bit false = 0

module _ {A B : Type 0} where
  -- What is left to do: two for an element, one for an open input and one for a barrier that waits.
  abbrev pub work : Merge A B → ℕ
  work m =
      2 * length m.input1
      + 2 * length m.input2
      + bit m.input1_open
      + bit m.input2_open
      + bit (is_some m.pending_barrier_from_1)
      + bit (is_some m.pending_barrier_from_2)

  read_1-falls :
      (m : Merge A B) (sent : Output A B) (xs : List (StreamElement A))
      → m.input1 ≡ xs
      → m.pending_barrier_from_1 ≡ none
      → m.input1_open ≡ true
      → work (read_1 recorder (m, sent)).1.0 < work m
  unfolding read_1 handle_element1
  read_1-falls m sent [] e p o = ground arith
  read_1-falls m sent (rec r ∷ xs) e p o = ground arith
  read_1-falls m sent (watermark w ∷ xs) e p o = ground arith
  read_1-falls m sent (checkpoint_barrier b ∷ xs) e p o = ground arith

  read_2-falls :
      (m : Merge A B) (sent : Output A B) (xs : List (StreamElement B))
      → m.input2 ≡ xs
      → m.pending_barrier_from_2 ≡ none
      → m.input2_open ≡ true
      → work (read_2 recorder (m, sent)).1.0 < work m
  unfolding read_2 handle_element2
  read_2-falls m sent [] e p o = ground arith
  read_2-falls m sent (rec r ∷ xs) e p o = ground arith
  read_2-falls m sent (watermark w ∷ xs) e p o = ground arith
  read_2-falls m sent (checkpoint_barrier b ∷ xs) e p o = ground arith

  wait_for_1-falls :
      (m : Merge A B) (sent : Output A B) (xs : List (StreamElement A)) (b : CheckpointBarrier)
      → m.input1 ≡ xs
      → m.buffer1 ≡ []
      → m.buffer2 ≡ []
      → m.pending_barrier_from_2 ≡ some b
      → m.pending_barrier_from_1 ≡ none
      → work (wait_for_1 recorder (m, sent)).1.0 < work m
  unfolding wait_for_1 handle_element1 try_flush_barriers for_each
  wait_for_1-falls m sent [] b e x y p q = ground arith
  wait_for_1-falls m sent (rec r ∷ xs) b e x y p q = ground arith
  wait_for_1-falls m sent (watermark w ∷ xs) b e x y p q = ground arith
  wait_for_1-falls m sent (checkpoint_barrier c ∷ xs) b e x y p q = ground arith

  wait_for_2-falls :
      (m : Merge A B) (sent : Output A B) (xs : List (StreamElement B)) (b : CheckpointBarrier)
      → m.input2 ≡ xs
      → m.buffer1 ≡ []
      → m.buffer2 ≡ []
      → m.pending_barrier_from_1 ≡ some b
      → m.pending_barrier_from_2 ≡ none
      → work (wait_for_2 recorder (m, sent)).1.0 < work m
  unfolding wait_for_2 handle_element2 try_flush_barriers for_each
  wait_for_2-falls m sent [] b e x y p q = ground arith
  wait_for_2-falls m sent (rec r ∷ xs) b e x y p q = ground arith
  wait_for_2-falls m sent (watermark w ∷ xs) b e x y p q = ground arith
  wait_for_2-falls m sent (checkpoint_barrier c ∷ xs) b e x y p q = ground arith

  read_open-falls :
      (choice : Side) (m : Merge A B) (sent : Output A B) (o1 o2 : Bool)
      → m.input1_open ≡ o1
      → m.input2_open ≡ o2
      → is_done m ≡ false
      → m.pending_barrier_from_1 ≡ none
      → m.pending_barrier_from_2 ≡ none
      → work (read_open recorder choice o1 o2 (m, sent)).1.0 < work m
  read_open-falls first m sent true true d e n p q = read_1-falls m sent m.input1 refl p d
  read_open-falls second m sent true true d e n p q = read_2-falls m sent m.input2 refl q e
  read_open-falls choice m sent true false d e n p q = read_1-falls m sent m.input1 refl p d
  read_open-falls choice m sent false true d e n p q = read_2-falls m sent m.input2 refl q e
  read_open-falls choice m sent false false d e n p q = absurd (ground arith)

  dispatch-falls :
      (choice : Side) (m : Merge A B) (sent : Output A B) (p1 p2 : Option CheckpointBarrier)
      → m.pending_barrier_from_1 ≡ p1
      → m.pending_barrier_from_2 ≡ p2
      → (p1 ≡ none) ⊎ (p2 ≡ none)
      → m.buffer1 ≡ []
      → m.buffer2 ≡ []
      → is_done m ≡ false
      → work (dispatch recorder choice p1 p2 (m, sent)).1.0 < work m
  dispatch-falls choice m sent none none p q w x y n =
      read_open-falls choice m sent m.input1_open m.input2_open refl refl n p q
  dispatch-falls choice m sent none (some b) p q w x y n =
      wait_for_1-falls m sent m.input1 b refl x y q p
  dispatch-falls choice m sent (some b) none p q w x y n =
      wait_for_2-falls m sent m.input2 b refl x y p q
  dispatch-falls choice m sent (some b) (some c) p q w x y n = absurd (ground arith)

  pub round-falls :
      (all1 : List (StreamElement A)) (all2 : List (StreamElement B)) (choice : Side)
      (m : Merge A B) (sent : Output A B)
      → IsValid all1 all2 m sent
      → is_done m ≡ false
      → work (round recorder choice (m, sent)).1.0 < work m
  unfolding round
  round-falls all1 all2 choice m sent v n =
      dispatch-falls choice m sent m.pending_barrier_from_1 m.pending_barrier_from_2 refl refl
        v.one_waits v.unbuffered1 v.unbuffered2 n
