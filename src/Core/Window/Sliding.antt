-- ===== src/Core/Window/Sliding.antt =====
-- What the sliding assigner of window.rs returns: the aligned windows that contain the timestamp.
use mathlib.Core.List.{reverse, reverse-cons, append-nil, append_assoc}
use flume_rs.Base.{
  ℕ, zero, suc, ◌+◌, ◌-◌, ◌*◌, ◌/◌, ◌^◌, ◌≤◌, ◌<◌, ◌≡◌, List, [], ◌∷◌, ◌++◌, some, filter,
  filter-append, add64, arith,
}
use flume_rs.Core.Time.{EventTimestamp}
use flume_rs.Core.Window.{Window, contains, walk, sliding_at}

module _ (size slide : ℕ) where
  -- The window number `k` of the grid that starts at 0.
  abbrev pub aligned : ℕ → Window
  aligned k = record { start = k * slide; end = k * slide + size }

  -- The windows 0 to `k`, and the same downwards.
  abbrev pub aligned_up_to : ℕ → List Window
  aligned_up_to zero = aligned 0 ∷ []
  aligned_up_to (suc k) = aligned_up_to k ++ aligned (suc k) ∷ []

  abbrev aligned_down : ℕ → List Window
  aligned_down zero = aligned 0 ∷ []
  aligned_down (suc k) = aligned (suc k) ∷ aligned_down k

  abbrev holding : EventTimestamp → List Window → List Window
  holding ts = filter (λ w. contains w ts)

  holding-nil : (ts k : ℕ) → k * slide + size ≤ ts → holding ts (aligned_down k) ≡ []
  holding-nil ts zero h = ground arith
  holding-nil ts (suc k) h = ground (arith, holding-nil ts k)

  reverse-holding :
      (ts k : ℕ) → reverse (holding ts (aligned_down k)) ≡ holding ts (aligned_up_to k)
  reverse-holding ts zero = ground (arith, reverse-cons (aligned 0) [])
  reverse-holding ts (suc k) = ground (
    arith,
    reverse-cons (aligned (suc k)) (holding ts (aligned_down k)),
    filter-append (λ w. contains w ts) (aligned_up_to k) (aligned (suc k) ∷ []),
    reverse-holding ts k,
    append-nil (holding ts (aligned_up_to k)),
  )

  -- The loop from window `k` down adds those of the windows 0 to `k` that hold the timestamp.
  walk_lem :
      (fuel ts k : ℕ) (ws : List Window)
      → 0 < slide
      → k < fuel
      → k * slide ≤ ts
      → ts + size < 2 ^ 64
      → walk fuel size slide ts (k * slide) ws ≡ some (ws ++ holding ts (aligned_down k))
  unfolding walk
  walk_lem zero ts k ws p f h b = absurd (omega arith)
  walk_lem (suc fuel) ts zero ws p f h b = ground (arith, append-nil ws, no_wrap, at_zero)
    where
      no_wrap : add64 (0 * slide) size ≡ 0 * slide + size
      no_wrap = omega arith

      at_zero : 0 * slide ≡ 0
      at_zero = omega arith
  walk_lem (suc fuel) ts (suc k) ws p f h b = ground (
    arith,
    top,
    back,
    below,
    append-nil ws,
    append_assoc ws (aligned (suc k) ∷ []) (holding ts (aligned_down k)),
    holding-nil ts k,
    walk_lem fuel ts k ws p,
    walk_lem fuel ts k (ws ++ aligned (suc k) ∷ []) p,
  )
    where
      top : add64 (suc k * slide) size ≡ suc k * slide + size
      top = omega arith

      back : suc k * slide - slide ≡ k * slide
      back = omega arith

      below : add64 (k * slide) size ≡ k * slide + size
      below = omega arith

  -- For a positive slide, and a timestamp so far below 2 ^ 64 that no window end wraps, the loop
  -- ends and `assign_windows` returns, in ascending order, exactly those windows of the grid
  -- [k * slide, k * slide + size) that contain the timestamp.
  pub sliding-eq-holding :
      (ts : EventTimestamp)
      → 0 < slide
      → ts + size < 2 ^ 64
      → sliding_at size slide ts ≡ some (filter (λ w. contains w ts) (aligned_up_to (ts / slide)))
  unfolding sliding_at
  sliding-eq-holding ts p b =
      ground
        (arith, walk_lem (suc (ts / slide)) ts (ts / slide) [] p, reverse-holding ts (ts / slide))
