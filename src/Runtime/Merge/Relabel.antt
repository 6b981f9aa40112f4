-- ===== src/Runtime/Merge/Relabel.antt =====
-- merge.rs does not look at the checkpoints of barriers: to relabel them commutes with a round.
use flume_rs.Base.{
  ℕ, ◌≡◌, ◌⊎◌, refl, ap, List, [], ◌∷◌, ◌++◌, Bool, true, false, Option, none, some, min, arith,
}
use flume_rs.Core.Record.{CheckpointBarrier, StreamElement, rec, watermark, checkpoint_barrier}
use flume_rs.Core.Result.{FlumeResult, for_each}
use flume_rs.Core.Collector.{recorder}
use flume_rs.Runtime.Merge.Views.{Output}
use flume_rs.Runtime.Merge.Step.{IsValid}
use flume_rs.Runtime.Merge.{
  Side, first, second, Merge, handle_element1, handle_element2, try_flush_barriers, wait_for_1,
  wait_for_2, read_1, read_2, read_open, dispatch, round, tag1, tag2,
}

module _ (g : CheckpointBarrier → CheckpointBarrier) where
  abbrev pub relabel : {T : Type 0} → List (StreamElement T) → List (StreamElement T)
  relabel [] = []
  relabel (rec r ∷ xs) = rec r ∷ relabel xs
  relabel (watermark w ∷ xs) = watermark w ∷ relabel xs
  relabel (checkpoint_barrier b ∷ xs) = checkpoint_barrier (g b) ∷ relabel xs

  abbrev pub relabel_pending : Option CheckpointBarrier → Option CheckpointBarrier
  relabel_pending none = none
  relabel_pending (some b) = some (g b)

  relabel-append :
      {T : Type 0} (xs ys : List (StreamElement T)) → relabel (xs ++ ys) ≡ relabel xs ++ relabel ys
  relabel-append [] ys = refl
  relabel-append (rec r ∷ xs) ys = ap (λ l. rec r ∷ l) (relabel-append xs ys)
  relabel-append (watermark w ∷ xs) ys = ap (λ l. watermark w ∷ l) (relabel-append xs ys)
  relabel-append (checkpoint_barrier b ∷ xs) ys =
      ap (λ l. checkpoint_barrier (g b) ∷ l) (relabel-append xs ys)

  module _ {A B : Type 0} where
    sends_watermark :
        (sent : Output A B) (t : ℕ)
        → relabel (sent ++ watermark (record { timestamp = t }) ∷ [])
          ≡ relabel sent ++ watermark (record { timestamp = t }) ∷ []
    sends_watermark sent t = relabel-append sent (watermark (record { timestamp = t }) ∷ [])

    abbrev pub relabel_merge : Merge A B → Merge A B
    relabel_merge m = record m {
      input1 = relabel m.input1;
      input2 = relabel m.input2;
      pending_barrier_from_1 = relabel_pending m.pending_barrier_from_1;
      pending_barrier_from_2 = relabel_pending m.pending_barrier_from_2;
    }

    -- A run from the relabelled state does what the run from the state does, relabelled.
    abbrev pub Relabels :
        {X : Type 0}
        → FlumeResult X × (Merge A B × Output A B)
        → FlumeResult X × (Merge A B × Output A B)
        → Type 0
    Relabels r r' = (r'.0 ≡ r.0) × (r'.1.0 ≡ relabel_merge r.1.0) × (r'.1.1 ≡ relabel r.1.1)

    read_1-Relabels :
        (m : Merge A B) (sent : Output A B) (xs : List (StreamElement A))
        → m.input1 ≡ xs
        → m.pending_barrier_from_1 ≡ none
        → Relabels (read_1 recorder (m, sent)) (read_1 recorder (relabel_merge m, relabel sent))
    unfolding read_1 handle_element1
    read_1-Relabels m sent [] e p = ground arith
    read_1-Relabels m sent (rec r ∷ xs) e p = ground (arith, relabel-append sent (tag1 r ∷ []))
    read_1-Relabels m sent (watermark w ∷ xs) e p =
        ground (arith, sends_watermark sent (min w.timestamp m.watermark2))
    read_1-Relabels m sent (checkpoint_barrier b ∷ xs) e p = ground arith

    read_2-Relabels :
        (m : Merge A B) (sent : Output A B) (xs : List (StreamElement B))
        → m.input2 ≡ xs
        → m.pending_barrier_from_2 ≡ none
        → Relabels (read_2 recorder (m, sent)) (read_2 recorder (relabel_merge m, relabel sent))
    unfolding read_2 handle_element2
    read_2-Relabels m sent [] e p = ground arith
    read_2-Relabels m sent (rec r ∷ xs) e p = ground (arith, relabel-append sent (tag2 r ∷ []))
    read_2-Relabels m sent (watermark w ∷ xs) e p =
        ground (arith, sends_watermark sent (min m.watermark1 w.timestamp))
    read_2-Relabels m sent (checkpoint_barrier b ∷ xs) e p = ground arith

    wait_for_1-Relabels :
        (m : Merge A B) (sent : Output A B) (xs : List (StreamElement A)) (b : CheckpointBarrier)
        → m.input1 ≡ xs
        → m.buffer1 ≡ []
        → m.buffer2 ≡ []
        → m.pending_barrier_from_2 ≡ some b
        → m.pending_barrier_from_1 ≡ none
        → Relabels
            (wait_for_1 recorder (m, sent))
            (wait_for_1 recorder (relabel_merge m, relabel sent))
    unfolding wait_for_1 handle_element1 try_flush_barriers for_each
    wait_for_1-Relabels m sent [] b e x y p q =
        ground (arith, relabel-append sent (checkpoint_barrier b ∷ []))
    wait_for_1-Relabels m sent (rec r ∷ xs) b e x y p q =
        ground (arith, relabel-append sent (tag1 r ∷ []))
    wait_for_1-Relabels m sent (watermark w ∷ xs) b e x y p q =
        ground (arith, sends_watermark sent (min w.timestamp m.watermark2))
    wait_for_1-Relabels m sent (checkpoint_barrier c ∷ xs) b e x y p q =
        ground (arith, relabel-append sent (checkpoint_barrier c ∷ []))

    wait_for_2-Relabels :
        (m : Merge A B) (sent : Output A B) (xs : List (StreamElement B)) (b : CheckpointBarrier)
        → m.input2 ≡ xs
        → m.buffer1 ≡ []
        → m.buffer2 ≡ []
        → m.pending_barrier_from_1 ≡ some b
        → m.pending_barrier_from_2 ≡ none
        → Relabels
            (wait_for_2 recorder (m, sent))
            (wait_for_2 recorder (relabel_merge m, relabel sent))
    unfolding wait_for_2 handle_element2 try_flush_barriers for_each
    wait_for_2-Relabels m sent [] b e x y p q =
        ground (arith, relabel-append sent (checkpoint_barrier b ∷ []))
    wait_for_2-Relabels m sent (rec r ∷ xs) b e x y p q =
        ground (arith, relabel-append sent (tag2 r ∷ []))
    wait_for_2-Relabels m sent (watermark w ∷ xs) b e x y p q =
        ground (arith, sends_watermark sent (min m.watermark1 w.timestamp))
    wait_for_2-Relabels m sent (checkpoint_barrier c ∷ xs) b e x y p q =
        ground (arith, relabel-append sent (checkpoint_barrier b ∷ []))

    read_open-Relabels :
        (choice : Side) (m : Merge A B) (sent : Output A B) (o1 o2 : Bool)
        → m.pending_barrier_from_1 ≡ none
        → m.pending_barrier_from_2 ≡ none
        → Relabels
            (read_open recorder choice o1 o2 (m, sent))
            (read_open recorder choice o1 o2 (relabel_merge m, relabel sent))
    read_open-Relabels first m sent true true p q = read_1-Relabels m sent m.input1 refl p
    read_open-Relabels second m sent true true p q = read_2-Relabels m sent m.input2 refl q
    read_open-Relabels choice m sent true false p q = read_1-Relabels m sent m.input1 refl p
    read_open-Relabels choice m sent false true p q = read_2-Relabels m sent m.input2 refl q
    read_open-Relabels choice m sent false false p q = (refl, refl, refl)

    dispatch-Relabels :
        (choice : Side) (m : Merge A B) (sent : Output A B) (p1 p2 : Option CheckpointBarrier)
        → m.pending_barrier_from_1 ≡ p1
        → m.pending_barrier_from_2 ≡ p2
        → m.buffer1 ≡ []
        → m.buffer2 ≡ []
        → (m.pending_barrier_from_1 ≡ none) ⊎ (m.pending_barrier_from_2 ≡ none)
        → Relabels (dispatch recorder choice p1 p2 (m, sent)) (
            dispatch recorder choice
              (relabel_pending p1)
              (relabel_pending p2)
              (relabel_merge m, relabel sent))
    dispatch-Relabels choice m sent none none p q x y w =
        read_open-Relabels choice m sent m.input1_open m.input2_open p q
    dispatch-Relabels choice m sent none (some b) p q x y w =
        wait_for_1-Relabels m sent m.input1 b refl x y q p
    dispatch-Relabels choice m sent (some b) none p q x y w =
        wait_for_2-Relabels m sent m.input2 b refl x y p q
    dispatch-Relabels choice m sent (some b) (some c) p q x y w = absurd (ground (arith, w))

    pub round-Relabels :
        (all1 : List (StreamElement A)) (all2 : List (StreamElement B)) (choice : Side)
        (m : Merge A B) (sent : Output A B)
        → IsValid all1 all2 m sent
        → Relabels
            (round recorder choice (m, sent))
            (round recorder choice (relabel_merge m, relabel sent))
    unfolding round
    round-Relabels all1 all2 choice m sent v =
        dispatch-Relabels choice m sent m.pending_barrier_from_1 m.pending_barrier_from_2 refl refl
          v.unbuffered1 v.unbuffered2 v.one_waits
