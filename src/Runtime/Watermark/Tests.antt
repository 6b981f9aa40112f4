-- ===== src/Runtime/Watermark/Tests.antt =====
-- The theorems on watermark.rs at a tracker of two inputs.
use flume_rs.Base.{ℕ, ◌≡◌, ◌≤◌, ◌<◌, ◌⊎◌, inl, refl, [], ◌∷◌, some, none, set, In, arith}
use flume_rs.Core.Result.{ok}
use flume_rs.Runtime.Watermark.{WatermarkTracker, update}
use flume_rs.Runtime.Watermark.Minimum.{Least, IsMinimum, update_lem, update-IsMinimum}

abbrev two_inputs : WatermarkTracker
two_inputs = record { input_watermarks = 10 ∷ 20 ∷ []; current_watermark = 10 }

update_lem_example :
    let r = update 0 (record { timestamp = 30 }) two_inputs in
    (r.1.input_watermarks ≡ set (10 ∷ 20 ∷ []) 0 30)
    × (((m : ℕ) × (r.0 ≡ ok (some (record { timestamp = m })))
          × (r.1.current_watermark ≡ m)
          × (10 < m)
          × Least m r.1.input_watermarks)
        ⊎ ((m : ℕ) × (r.0 ≡ ok none)
            × (r.1.current_watermark ≡ 10)
            × (m ≤ 10)
            × In m r.1.input_watermarks))
update_lem_example = update_lem two_inputs 0 (record { timestamp = 30 }) (omega arith)

update-IsMinimum_example : IsMinimum (update 0 (record { timestamp = 30 }) two_inputs).1
update-IsMinimum_example =
    update-IsMinimum two_inputs 0 (record { timestamp = 30 }) (omega arith) 10 refl (omega arith)
      ((omega arith, (omega arith, tt)), inl refl)
