-- ===== src/Core/Window/Tumbling.antt =====
-- What the tumbling assigner of window.rs returns, and its agreement with the sliding one.
use flume_rs.Base.{
  ℕ, zero, suc, ◌+◌, ◌*◌, ◌/◌, ◌^◌, ◌≤◌, ◌<◌, ◌≡◌, true, [], ◌∷◌, some, filter, filter-append,
  arith,
}
use flume_rs.Core.Time.{EventTimestamp}
use flume_rs.Core.Window.{contains, tumbling_at, sliding_at}
use flume_rs.Core.Window.Sliding.{aligned, aligned_up_to, sliding-eq-holding}

module _ (size : ℕ) where
  grid_step : (j k : ℕ) → j < k → j * size + size ≤ k * size
  grid_step j k h = grind arith

  grid_unique :
      (ts j k : ℕ)
      → contains (aligned size size j) ts ≡ true
      → contains (aligned size size k) ts ≡ true
      → j ≡ k
  grid_unique ts j k h g = ground (arith, grid_step j k, grid_step k j)

  holding_below :
      (ts n : ℕ)
      → n * size + size ≤ ts
      → filter (λ w. contains w ts) (aligned_up_to size size n) ≡ []
  holding_below ts zero h = ground arith
  holding_below ts (suc n) h = ground (
    arith,
    holding_below ts n,
    filter-append (λ w. contains w ts) (aligned_up_to size size n) (aligned size size (suc n) ∷ []),
  )

  holding_last :
      (ts n : ℕ)
      → contains (aligned size size n) ts ≡ true
      → filter (λ w. contains w ts) (aligned_up_to size size n) ≡ aligned size size n ∷ []
  holding_last ts zero h = ground arith
  holding_last ts (suc n) h = ground (
    arith,
    holding_below ts n,
    filter-append (λ w. contains w ts) (aligned_up_to size size n) (aligned size size (suc n) ∷ []),
  )

  grid_of_div : (ts : ℕ) → 0 < size → contains (aligned size size (ts / size)) ts ≡ true
  grid_of_div ts p = ground arith

  -- For a positive size, and a timestamp so far below 2 ^ 64 that the window end does not wrap,
  -- `assign_windows` returns one window of the grid [k * size, (k + 1) * size); it contains the
  -- timestamp, and no other window of the grid does.
  pub tumbling_partition :
      (ts : EventTimestamp)
      → 0 < size
      → ts + size < 2 ^ 64
      → (k : ℕ) × (tumbling_at size ts ≡ some (aligned size size k ∷ []))
        × (contains (aligned size size k) ts ≡ true)
        × ((j : ℕ) → contains (aligned size size j) ts ≡ true → j ≡ k)
  unfolding tumbling_at
  tumbling_partition ts p b = (
    ts / size,
    ground arith,
    grid_of_div ts p,
    λ j h. grid_unique ts j (ts / size) h (grid_of_div ts p),
  )

  -- A sliding window whose slide is its size assigns what the tumbling window does, under the same
  -- conditions.
  pub tumbling-eq-sliding :
      (ts : EventTimestamp)
      → 0 < size
      → ts + size < 2 ^ 64
      → tumbling_at size ts ≡ sliding_at size size ts
  unfolding tumbling_at
  tumbling-eq-sliding ts p b =
      ground
        (arith, sliding-eq-holding size size ts p b, holding_last ts (ts / size) (grid_of_div ts p))
