-- ===== src/Core/Operator/Process/Agree.antt =====
-- The three operators of crates/flume-core/src/operator/process.rs compared.
use flume_rs.Base.{
  ◌≡◌, refl, ◌∙◌, ◌≢◌, All, All-map_of, List, ◌++◌, map, Option, none, some, sym, ap,
}
use flume_rs.Core.Record.{
  Bytes, Record, Watermark, CheckpointBarrier, StreamElement, rec, watermark, checkpoint_barrier,
  Either, left, right, map_record,
}
use flume_rs.Core.Result.{
  Run, ◌>>◌, >>-cong, for_each, for_each-append, for_each-map, for_each_ext, for_each_ext_all,
}
use flume_rs.Core.Collector.{Collector}
use flume_rs.Core.Process.{ProcessFunction, KeyedProcessFunction, CoProcessFunction}
use flume_rs.Core.Operator.Process
use flume_rs.Core.Operator.Process.{
  ProcessOperator, process_barrier, key_ref, key_or_default, context_for, element_done,
}
use flume_rs.Core.Timer.{set_current_key}
use flume_rs.Core.Operator.Process.Keyed
use flume_rs.Core.Operator.Process.Co

-- The calls of an operator for the elements of its input.
module _ {S T : Type 0} (process_record : Record T → Run S (Unit {0}))
    (process_watermark : Watermark → Run S (Unit {0}))
    (process_barrier : CheckpointBarrier → Run S (Unit {0})) where
  abbrev pub process_element : StreamElement T → Run S (Unit {0})
  process_element (rec r) = process_record r
  process_element (watermark w) = process_watermark w
  process_element (checkpoint_barrier b) = process_barrier b

module _ {P E C In Out : Type 0} (out : Collector C Out) where
  abbrev pub run_plain :
      ProcessFunction P E C In Out
      → List (StreamElement In)
      → Run (ProcessOperator P E × C) (Unit {0})
  run_plain f = for_each (
      process_element (Process.process_record f out) (Process.process_watermark f out)
        (process_barrier out))

  abbrev pub run_keyed :
      KeyedProcessFunction P E C In Out
      → List (StreamElement In)
      → Run (ProcessOperator P E × C) (Unit {0})
  run_keyed f = for_each (
      process_element (Keyed.process_record f out) (Keyed.process_watermark f out)
        (process_barrier out))

module _ {P E C In1 In2 Out : Type 0} (out : Collector C Out) where
  abbrev pub run_co :
      CoProcessFunction P E C In1 In2 Out
      → List (StreamElement (Either In1 In2))
      → Run (ProcessOperator P E × C) (Unit {0})
  run_co f =
      for_each (
        process_element (Co.process_record f out) (Co.process_watermark f out)
          (process_barrier out))

-- A function as a keyed one that does not look at its key, and the halves of a function of two
-- inputs.
abbrev pub without_key :
    {P E C In Out : Type 0} → ProcessFunction P E C In Out → KeyedProcessFunction P E C In Out
without_key f = record {
  process_element = λ key v out. f.process_element v out;
  on_timer = λ t key out. f.on_timer t out;
}

module _ {P E C In1 In2 Out : Type 0} where
  abbrev pub left_half : CoProcessFunction P E C In1 In2 Out → ProcessFunction P E C In1 Out
  left_half f = record {
    process_element = λ v out. f.process_element1 v out;
    on_timer = λ t out. f.on_timer t out;
  }

  abbrev pub right_half : CoProcessFunction P E C In1 In2 Out → ProcessFunction P E C In2 Out
  right_half f = record {
    process_element = λ v out. f.process_element2 v out;
    on_timer = λ t out. f.on_timer t out;
  }

abbrev pub map_element : {T U : Type 0} → (T → U) → StreamElement T → StreamElement U
map_element g (rec r) = rec (map_record r g)
map_element g (watermark w) = watermark w
map_element g (checkpoint_barrier b) = checkpoint_barrier b

abbrev pub HasKey : {T : Type 0} → StreamElement T → Type 0
HasKey (rec r) = r.key ≢ none
HasKey (watermark w) = Unit
HasKey (checkpoint_barrier b) = Unit

key_ref-some : (k : Option Bytes) → k ≢ none → key_ref k ≡ some (key_or_default k)
key_ref-some none h = absurd (h refl)
key_ref-some (some k) h = refl

module _ {P E C In Out : Type 0} (out : Collector C Out) (f : ProcessFunction P E C In Out) where
  keyed_step :
      (x : StreamElement In) (s : ProcessOperator P E × C)
      → HasKey x
      → process_element
          (Process.process_record f out)
          (Process.process_watermark f out)
          (process_barrier out)
          x
          s
        ≡ process_element
            (Keyed.process_record (without_key f) out)
            (Keyed.process_watermark (without_key f) out)
            (process_barrier out)
            x
            s
  unfolding Process.process_record Process.process_watermark Keyed.process_record
      Keyed.process_watermark
  keyed_step (rec r) (op, c) h =
      ap
        (λ k. element_done (
          f.process_element r.value out (
            op.process_fn,
            context_for r.timestamp k (set_current_key op.timer_service (key_or_default r.key))
                op.side_outputs,
            c,
          )))
        (key_ref-some r.key h)
  keyed_step (watermark w) s h = refl
  keyed_step (checkpoint_barrier b) s h = refl

  -- On input whose records all have a key, `ProcessOperator` with a process function does what
  -- `KeyedProcessOperator` does with the keyed function that ignores its key: the same calls of the
  -- collector, the same end, also after an error, and the same state, for every function and
  -- collector.
  pub keyed_covers :
      (xs : List (StreamElement In)) (s : ProcessOperator P E × C)
      → All HasKey xs
      → run_plain out f xs s ≡ run_keyed out (without_key f) xs s
  keyed_covers xs s h = for_each_ext _ _ xs s (All-map_of _ _ xs (λ x k t. keyed_step x t k) h)

module _ {P E C In1 In2 Out : Type 0} (out : Collector C Out)
    (f : CoProcessFunction P E C In1 In2 Out) where
  left_step :
      (x : StreamElement In1) (s : ProcessOperator P E × C)
      → process_element
          (Co.process_record f out)
          (Co.process_watermark f out)
          (process_barrier out)
          (map_element left x)
          s
        ≡ process_element
            (Process.process_record (left_half f) out)
            (Process.process_watermark (left_half f) out)
            (process_barrier out)
            x
            s
  unfolding Process.process_record Process.process_watermark Co.process_record Co.process_watermark
  left_step (rec r) s = refl
  left_step (watermark w) s = refl
  left_step (checkpoint_barrier b) s = refl

  right_step :
      (x : StreamElement In2) (s : ProcessOperator P E × C)
      → process_element
          (Co.process_record f out)
          (Co.process_watermark f out)
          (process_barrier out)
          (map_element right x)
          s
        ≡ process_element
            (Process.process_record (right_half f) out)
            (Process.process_watermark (right_half f) out)
            (process_barrier out)
            x
            s
  unfolding Process.process_record Process.process_watermark Co.process_record Co.process_watermark
  right_step (rec r) s = refl
  right_step (watermark w) s = refl
  right_step (checkpoint_barrier b) s = refl

  -- A `CoProcessOperator` does on elements of its first input what `ProcessOperator` does with
  -- `process_element1`, and on the elements of its second input that follow what `ProcessOperator`
  -- does with `process_element2`, from the state that the first left, watermarks and barriers
  -- included and up to the first error, for every function and collector.
  pub co_covers :
      (xs : List (StreamElement In1)) (ys : List (StreamElement In2)) (s : ProcessOperator P E × C)
      → run_co out f (map (map_element left) xs ++ map (map_element right) ys) s
        ≡ (run_plain out (left_half f) xs >> run_plain out (right_half f) ys) s
  co_covers xs ys s =
      for_each-append
        (process_element (Co.process_record f out) (Co.process_watermark f out)
          (process_barrier out))
        (map (map_element left) xs) (map (map_element right) ys) s
      ∙ >>-cong (run_co out f (map (map_element left) xs)) (run_plain out (left_half f) xs)
          (run_co out f (map (map_element right) ys)) (run_plain out (right_half f) ys) s
          (lefts xs s) (rights ys)
    where
      lefts :
          (xs : List (StreamElement In1)) (s : ProcessOperator P E × C)
          → run_co out f (map (map_element left) xs) s ≡ run_plain out (left_half f) xs s
      lefts xs s =
          sym (for_each-map _ (map_element left) xs s) ∙ for_each_ext_all _ _ left_step xs s

      rights :
          (ys : List (StreamElement In2)) (s : ProcessOperator P E × C)
          → run_co out f (map (map_element right) ys) s ≡ run_plain out (right_half f) ys s
      rights ys s =
          sym (for_each-map _ (map_element right) ys s) ∙ for_each_ext_all _ _ right_step ys s
