-- ===== src/Core/Window/Tests.antt =====
-- Runs of window.rs, and its theorems at concrete inputs.
use flume_rs.Base.{ℕ, ◌≡◌, refl, ◌∷◌, [], some, true, filter, arith}
use flume_rs.Core.Window.{contains, walk, sliding, tumbling_at, sliding_at}
use flume_rs.Core.Window.Sliding.{aligned, aligned_up_to, sliding-eq-holding}
use flume_rs.Core.Window.Tumbling.{tumbling_partition}

sliding_run :
    sliding 10 3 12
    ≡ some (
        record { start = 3; end = 13 }
        ∷ record { start = 6; end = 16 }
        ∷ record { start = 9; end = 19 }
        ∷ record { start = 12; end = 22 }
        ∷ [])
unfolding sliding walk
sliding_run = refl

sliding-eq-holding_example :
    sliding_at 10 3 12 ≡ some (filter (λ w. contains w 12) (aligned_up_to 10 3 4))
sliding-eq-holding_example = sliding-eq-holding 10 3 12 (omega arith) (omega arith)

tumbling_partition_example :
    (k : ℕ) × (tumbling_at 10 25 ≡ some (aligned 10 10 k ∷ []))
    × (contains (aligned 10 10 k) 25 ≡ true)
    × ((j : ℕ) → contains (aligned 10 10 j) 25 ≡ true → j ≡ k)
tumbling_partition_example = tumbling_partition 10 25 (omega arith) (omega arith)
