-- ===== src/Runtime/Merge/Unmatched.antt =====
-- merge.rs aligns barriers by their order alone, also when their checkpoints differ.
use flume_rs.Base.{
  ◌+◌, ◌*◌, ◌≤◌, ◌≡◌, refl, sym, ap, ap₂, subst, ◌∙◌, List, [], ◌∷◌, length, replicate, Bool-cases,
  inl, inr, arith,
}
use flume_rs.Core.Record.{CheckpointBarrier, StreamElement, rec, watermark, checkpoint_barrier}
use flume_rs.Core.Result.{after_ok}
use flume_rs.Core.Collector.{recorder}
use flume_rs.Runtime.Merge.Views.{Output}
use flume_rs.Runtime.Merge.Cuts.{unwatermarked, barriers, left_view, right_view}
use flume_rs.Runtime.Merge.Step.{IsValid, round-Keeps, initial-IsValid}
use flume_rs.Runtime.Merge.Relabel.{relabel, relabel_merge, Relabels, round-Relabels}
use flume_rs.Runtime.Merge.Barriers.{merge_aligns}
use flume_rs.Runtime.Merge.{Side, Merge, round, is_done, initial, two_input_merge}

module _ {A B : Type 0} (all1 : List (StreamElement A)) (all2 : List (StreamElement B)) where
  run-Relabels :
      (g : CheckpointBarrier → CheckpointBarrier) (choices : List Side) (m : Merge A B)
      (sent : Output A B)
      → IsValid all1 all2 m sent
      → Relabels g
          (two_input_merge recorder choices (m, sent))
          (two_input_merge recorder choices (relabel_merge g m, relabel g sent))
  unfolding two_input_merge
  run-Relabels g [] m sent v = (refl, refl, refl)
  run-Relabels g (choice ∷ choices) m sent v = elim (Bool-cases (is_done m)) [
    | inl e ↦ rw e (refl, refl, refl)
    | inr e ↦
        let k = round-Keeps all1 all2 choice m sent v in
        let l = round-Relabels g all1 all2 choice m sent v in
        let r = round recorder choice (m, sent) in
        let r' = round recorder choice (relabel_merge g m, relabel g sent) in
        let same : r'.1 ≡ (relabel_merge g r.1.0, relabel g r.1.1) = ap₂ (λ a b. (a, b)) l.1 l.2 in
        rw
          (
            e,
            after_ok r tt (λ _. two_input_merge recorder choices) k.0,
            after_ok r' tt (λ _. two_input_merge recorder choices) (l.0 ∙ k.0),
          )
          (subst
            (λ s.
              Relabels g (two_input_merge recorder choices r.1)
                (two_input_merge recorder choices s))
            (sym same) (run-Relabels g choices r.1.0 r.1.1 k.1))
  ]

module _ {T : Type 0} where
  length-relabel :
      (g : CheckpointBarrier → CheckpointBarrier) (xs : List (StreamElement T))
      → length (relabel g xs) ≡ length xs
  length-relabel g [] = refl
  length-relabel g (rec r ∷ xs) = omega (arith, length-relabel g xs)
  length-relabel g (watermark w ∷ xs) = omega (arith, length-relabel g xs)
  length-relabel g (checkpoint_barrier b ∷ xs) = omega (arith, length-relabel g xs)

  -- The stream with all its barriers replaced by `b`.
  abbrev pub uniform : CheckpointBarrier → List (StreamElement T) → List (StreamElement T)
  uniform b = relabel (λ _. b)

  barriers-uniform :
      (b : CheckpointBarrier) (xs : List (StreamElement T))
      → barriers (uniform b xs) ≡ replicate (length (barriers xs)) b
  barriers-uniform b [] = refl
  barriers-uniform b (rec r ∷ xs) = barriers-uniform b xs
  barriers-uniform b (watermark w ∷ xs) = barriers-uniform b xs
  barriers-uniform b (checkpoint_barrier c ∷ xs) = ap (λ l. b ∷ l) (barriers-uniform b xs)

-- For two finite inputs with equally many barriers, whatever their checkpoints, and whatever the
-- schedule (of the length that suffices for the end): if all barriers are read as the same one, the
-- output is cut by its barriers as each input is. So the barriers of the two inputs are aligned by
-- their order, for each pair one barrier is sent, and no checkpoints are compared.
pub merge_aligns_unmatched :
    {A B : Type 0} (all1 : List (StreamElement A)) (all2 : List (StreamElement B))
    (choices : List Side) (b : CheckpointBarrier)
    → 2 * length all1 + 2 * length all2 + 2 ≤ length choices
    → length (barriers all1) ≡ length (barriers all2)
    → let sent = (two_input_merge recorder choices (initial all1 all2, [])).1.1 in
      (left_view (uniform b sent) ≡ unwatermarked (uniform b all1))
      × (right_view (uniform b sent) ≡ unwatermarked (uniform b all2))
merge_aligns_unmatched all1 all2 choices b h same =
    let l =
      run-Relabels all1 all2 (λ _. b) choices (initial all1 all2) [] (initial-IsValid all1 all2) in
    let a =
      merge_aligns (uniform b all1) (uniform b all2) choices
        (omega (arith, h, length-relabel (λ _. b) all1, length-relabel (λ _. b) all2))
        (barriers-uniform b all1 ∙ ap (λ n. replicate n b) same ∙ sym (barriers-uniform b all2)) in
    (ap left_view (sym l.2) ∙ a.0, ap right_view (sym l.2) ∙ a.1)
