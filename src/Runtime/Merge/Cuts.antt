-- ===== src/Runtime/Merge/Cuts.antt =====
-- The inputs and the output of merge.rs as streams of records that barriers cut into pieces.
use mathlib.Core.List.{append_assoc}
use flume_rs.Base.{◌≡◌, refl, List, [], ◌∷◌, ◌++◌, Option, none, some, arith}
use flume_rs.Core.Record.{
  Record, CheckpointBarrier, StreamElement, rec, watermark, checkpoint_barrier,
}
use flume_rs.Runtime.Merge.Views.{Output, left_of, right_of}

-- A stream without its watermarks, and its barriers alone.
module _ {T : Type 0} where
  abbrev pub unwatermarked : List (StreamElement T) → List (StreamElement T)
  unwatermarked [] = []
  unwatermarked (rec r ∷ xs) = rec r ∷ unwatermarked xs
  unwatermarked (watermark w ∷ xs) = unwatermarked xs
  unwatermarked (checkpoint_barrier b ∷ xs) = checkpoint_barrier b ∷ unwatermarked xs

  abbrev pub barriers : List (StreamElement T) → List CheckpointBarrier
  barriers [] = []
  barriers (rec r ∷ xs) = barriers xs
  barriers (watermark w ∷ xs) = barriers xs
  barriers (checkpoint_barrier b ∷ xs) = b ∷ barriers xs

  abbrev pub as_records : List (Record T) → List (StreamElement T)
  as_records [] = []
  as_records (r ∷ rs) = rec r ∷ as_records rs

  abbrev pub held_element : Option CheckpointBarrier → List (StreamElement T)
  held_element none = []
  held_element (some b) = checkpoint_barrier b ∷ []

abbrev pub held : Option CheckpointBarrier → List CheckpointBarrier
held none = []
held (some b) = b ∷ []

-- What of the output belongs to one input: its records, and the barriers.
module _ {A B : Type 0} where
  abbrev pub left_view : Output A B → List (StreamElement A)
  left_view [] = []
  left_view (rec r ∷ xs) = as_records (left_of r) ++ left_view xs
  left_view (watermark w ∷ xs) = left_view xs
  left_view (checkpoint_barrier b ∷ xs) = checkpoint_barrier b ∷ left_view xs

  abbrev pub right_view : Output A B → List (StreamElement B)
  right_view [] = []
  right_view (rec r ∷ xs) = as_records (right_of r) ++ right_view xs
  right_view (watermark w ∷ xs) = right_view xs
  right_view (checkpoint_barrier b ∷ xs) = checkpoint_barrier b ∷ right_view xs

  pub left_view-append : (xs ys : Output A B) → left_view (xs ++ ys) ≡ left_view xs ++ left_view ys
  left_view-append [] ys = refl
  left_view-append (rec r ∷ xs) ys = ground (
    arith,
    left_view-append xs ys,
    append_assoc (as_records (left_of r)) (left_view xs) (left_view ys),
  )
  left_view-append (watermark w ∷ xs) ys = left_view-append xs ys
  left_view-append (checkpoint_barrier b ∷ xs) ys = ground (arith, left_view-append xs ys)

  pub right_view-append :
      (xs ys : Output A B) → right_view (xs ++ ys) ≡ right_view xs ++ right_view ys
  right_view-append [] ys = refl
  right_view-append (rec r ∷ xs) ys = ground (
    arith,
    right_view-append xs ys,
    append_assoc (as_records (right_of r)) (right_view xs) (right_view ys),
  )
  right_view-append (watermark w ∷ xs) ys = right_view-append xs ys
  right_view-append (checkpoint_barrier b ∷ xs) ys = ground (arith, right_view-append xs ys)
