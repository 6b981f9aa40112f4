-- ===== src/Runtime/Aligner/Tests.antt =====
-- Runs of the model of aligner.rs.
use flume_rs.Base.{ℕ, ◌≡◌, refl, List, [], ◌∷◌, none}
use flume_rs.Core.Record.{StreamElement, CheckpointBarrier, rec, checkpoint_barrier}
use flume_rs.Runtime.Aligner.{
  BarrierAligner, Polled, gives, closed, element, barrier_aligned, new_aligner, next, drain,
  next_multi, handle,
}
use flume_rs.Runtime.Aligner.Views.{Ends}
use flume_rs.Runtime.Aligner.Takes.{next_lem, new_aligner-IsValid}

abbrev number : ℕ → StreamElement ℕ
number n = rec (record { value = n; timestamp = 0; key = none })

abbrev barrier : CheckpointBarrier
barrier = record { checkpoint_id = 1; timestamp = 5 }

abbrev two_inputs : List (List (StreamElement ℕ))
two_inputs =
    (checkpoint_barrier barrier ∷ number 1 ∷ [])
    ∷ (number 2 ∷ checkpoint_barrier barrier ∷ number 3 ∷ [])
    ∷ []

abbrev first : Polled ℕ × BarrierAligner ℕ
first = next (0 ∷ 0 ∷ 1 ∷ []) (new_aligner two_inputs)

abbrev second : Polled ℕ × BarrierAligner ℕ
second = next (1 ∷ []) first.1

-- The element of the input 1 passes the blocked input 0.
first_gives : first.0 ≡ gives (element (number 2))
unfolding next drain next_multi handle
first_gives = refl

second_gives : second.0 ≡ gives (barrier_aligned barrier)
unfolding next drain next_multi handle
second_gives = refl

-- What was buffered comes first after the barrier.
third_gives : (next [] second.1).0 ≡ gives (element (number 1))
unfolding next drain next_multi handle
third_gives = refl

-- The input 1 closes without a barrier: the element that the input 0 sent after its own is buffered
-- when the aligner reports the end.
closes :
    let r =
      next (0 ∷ 0 ∷ []) (new_aligner ((checkpoint_barrier barrier ∷ number 1 ∷ []) ∷ [] ∷ [])) in
    (r.0 ≡ closed) × (r.1.blocked_buffers ≡ (number 1 ∷ []) ∷ [] ∷ [])
unfolding next drain next_multi handle
closes = (refl, refl)

next_lem_example : Ends (new_aligner two_inputs) first.0 first.1
next_lem_example =
    next_lem (0 ∷ 0 ∷ 1 ∷ []) (new_aligner two_inputs) (new_aligner-IsValid two_inputs)
