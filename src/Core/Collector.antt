-- ===== src/Core/Collector.antt =====
-- crates/flume-core/src/traits/operator.rs: what an operator pushes its output into. The trait
-- objects of the source (channels, ring buffers, network collectors) are values of `Collector`.
use flume_rs.Base.{◌≡◌, refl, ◌∙◌, List, [], ◌∷◌, ◌++◌}
use flume_rs.Core.Record.{
  Record, Watermark, CheckpointBarrier, StreamElement, rec, watermark, checkpoint_barrier,
}
use flume_rs.Core.Result.{Run, ok, ◌>>◌, >>-cong, ended, for_each, for_each-append}

-- The state of the collector, and its methods.
pub record Collector (C T : Type 0) : Type 0 where
  pub collect : Record T → Run C (Unit {0})
  pub collect_watermark : Watermark → Run C (Unit {0})
  pub collect_barrier : CheckpointBarrier → Run C (Unit {0})

module _ {C T : Type 0} where
  abbrev pub collect_element : Collector C T → StreamElement T → Run C (Unit {0})
  collect_element out (rec r) = out.collect r
  collect_element out (watermark w) = out.collect_watermark w
  collect_element out (checkpoint_barrier b) = out.collect_barrier b

  -- Elements in order, up to the first error.
  abbrev pub emit : Collector C T → List (StreamElement T) → Run C (Unit {0})
  emit out = for_each (collect_element out)

  pub emit-append_one :
      (out : Collector C T) (xs : List (StreamElement T)) (x : StreamElement T) (c : C)
      → emit out (xs ++ x ∷ []) c ≡ (emit out xs >> collect_element out x) c
  unfolding for_each
  emit-append_one out xs x c =
      for_each-append (collect_element out) xs (x ∷ []) c
      ∙ >>-cong (emit out xs) (emit out xs) _ _ c refl (λ d. ended (collect_element out x d))

-- One that keeps what it is given and never fails.
abbrev pub recorder : {T : Type 0} → Collector (List (StreamElement T)) T
recorder = record {
  collect = λ r s. (ok tt, s ++ rec r ∷ []);
  collect_watermark = λ w s. (ok tt, s ++ watermark w ∷ []);
  collect_barrier = λ b s. (ok tt, s ++ checkpoint_barrier b ∷ []);
}
