-- ===== src/Runtime/Aligner/Takes.antt =====
-- What aligner.rs does with the data of its inputs.
use flume_rs.Base.{
  ℕ, ◌-◌, ◌≡◌, refl, inl, inr, List, [], ◌∷◌, Option, none, some, false, length, length-replicate,
  get_elem?, all, arith, Bool-cases, eqb, eqb_iff,
}
use flume_rs.Core.Record.{StreamElement, rec, watermark, checkpoint_barrier}
use flume_rs.Runtime.Aligner.{
  AlignerOutput, Polled, BarrierAligner, new_aligner, is_empty, is_true, drain, handle, next_multi,
  next_single, next, after, after_drain, output_of,
}
use flume_rs.Runtime.Aligner.Views.{
  front_cases, none_received, taken, IsValid, IsDrained, Takes, Steps, Ends, Same-Ends,
  drained-IsValid, listed_out,
}
use flume_rs.Runtime.Aligner.Drain.{Drains, drain_lem}
use flume_rs.Runtime.Aligner.Handle.{pop, pop_ne, fits, barrier-Same, front, handle-Steps}

module _ {T : Type 0} where
  abbrev GoesOn : BarrierAligner T → Polled T × BarrierAligner T → Type 0
  GoesOn a r = Ends a r.0 r.1

  after-Ends :
      (more : BarrierAligner T → Polled T × BarrierAligner T) (a : BarrierAligner T)
      (r : Option (AlignerOutput T) × BarrierAligner T)
      → ((b : BarrierAligner T) → IsDrained b → GoesOn b (more b))
      → Steps a (listed_out r.0) r.1
      → GoesOn a (after more r)
  after-Ends more a (none, b) k s = Same-Ends a b (more b).1 (more b).0 s.1 (k b s.0)
  after-Ends more a (some o, b) k s = s

  next_multi_lem :
      (choices : List ℕ) (a : BarrierAligner T) → IsDrained a → GoesOn a (next_multi choices a)
  unfolding next_multi
  next_multi_lem [] a d = elim (Bool-cases (all is_empty a.inputs)) [
    | inl q ↦ rw q (drained-IsValid a d, λ j. refl)
    | inr q ↦ rw q (drained-IsValid a d, λ j. refl)
  ]
  next_multi_lem (i ∷ choices) a d = elim (Bool-cases (all is_empty a.inputs)) [
    | inl q ↦ rw q (drained-IsValid a d, λ j. refl)
    | inr q ↦ rw q (elim (front_cases (get_elem? a.inputs i)) [
      | inl e ↦ rw e (next_multi_lem choices a d)
      | inr (inl e) ↦ rw e (next_multi_lem choices a d)
      | inr (inr (x, xs, e)) ↦ rw e (
          after-Ends (next_multi choices) a (handle i x (pop i xs a)) (next_multi_lem choices)
            (handle-Steps a d i xs x e))
    ])
  ]

  single-Takes :
      (a : BarrierAligner T)
      → IsDrained a
      → is_true (get_elem? a.barrier_received 0) ≡ false
      → (x : StreamElement T) (xs : List (StreamElement T)) → get_elem? a.inputs 0 ≡ some (x ∷ xs)
      → Takes a (taken (output_of x)) (pop 0 xs a)
  single-Takes a d r (checkpoint_barrier b) xs e =
      (0, barrier-Same a d 0 xs b e 0, λ j ne. pop_ne 0 j xs a ne)
  single-Takes a d r (rec x) xs e =
      (0, front a d 0 xs (rec x) (λ ys. refl) e r, λ j ne. pop_ne 0 j xs a ne)
  single-Takes a d r (watermark x) xs e =
      (0, front a d 0 xs (watermark x) (λ ys. refl) e r, λ j ne. pop_ne 0 j xs a ne)

  next_single_lem :
      (a : BarrierAligner T) → IsDrained a → length a.inputs ≡ 1 → GoesOn a (next_single a)
  next_single_lem a d h = elim (front_cases (get_elem? a.inputs 0)) [
    | inl e ↦ rw (e, next_single) (drained-IsValid a d, λ j. refl)
    | inr (inl e) ↦ rw (e, next_single) (drained-IsValid a d, λ j. refl)
    | inr (inr (x, xs, e)) ↦
        rw (e, next_single) ((fits a d 0 xs, λ j lt k. d.1 j k), single-Takes a d (d.0.2 h) x xs e)
  ]

  after_drain-Ends :
      (choices : List ℕ) (a : BarrierAligner T) (r : Option (StreamElement T) × BarrierAligner T)
      → Drains a r
      → GoesOn a (after_drain choices r)
  after_drain-Ends choices a (some x, b) s = s.0
  after_drain-Ends choices a (none, b) s = elim (Bool-cases (eqb (length b.inputs) 1)) [
    | inl q ↦ rw q (
        Same-Ends a b (next_single b).1 (next_single b).0 s.0.1
          (next_single_lem b s.0.0 ((eqb_iff (length b.inputs) 1).0 q)))
    | inr q ↦ rw q (
        Same-Ends a b (next_multi choices b).1 (next_multi choices b).0 s.0.1
          (next_multi_lem choices b s.0.0))
  ]

  -- From a state that is valid, and in every schedule, a call of `next` leaves a valid state. If
  -- it gives an element, then that is the first of the data that one input had still to give,
  -- buffered before what arrives, and the data of the other inputs are as before. If it gives a
  -- barrier, or closes, or waits, then no input has lost, gained or reordered any data.
  pub next_lem :
      (choices : List ℕ) (a : BarrierAligner T)
      → IsValid a
      → let r = next choices a in Ends a r.0 r.1
  unfolding next
  next_lem choices a v =
      after_drain-Ends choices a (drain (length a.blocked_buffers - a.drain_index) a)
        (drain_lem (length a.blocked_buffers - a.drain_index) a v (omega arith))

  -- A new aligner is valid.
  pub new_aligner-IsValid : (inputs : List (List (StreamElement T))) → IsValid (new_aligner inputs)
  new_aligner-IsValid inputs = (
    (
      length-replicate (length inputs) [],
      length-replicate (length inputs) false,
      λ u. none_received (length inputs),
    ),
    λ j lt. elim lt [ ],
  )
