-- ===== src/Runtime/Watermark/Minimum.antt =====
-- What watermark.rs emits: a lower bound of its inputs that only grows.
use flume_rs.Base.{
  ℕ, zero, suc, ◌≡◌, ◌≤◌, ◌<◌, ◌⊎◌, inl, inr, refl, List, [], ◌∷◌, none, some, All, In, length,
  length-set, replicate, set, get_elem?, min, ltb, arith, All-set, All_at_In, All-get_elem?,
  Bool-cases,
}
use flume_rs.Core.Time.{EventTimestamp}
use flume_rs.Core.Record.{Watermark}
use flume_rs.Core.Result.{ok}
use flume_rs.Runtime.Watermark.{WatermarkTracker, reduce_min, minimum, min_or, update}

-- `m` is the least element.
abbrev pub Least : EventTimestamp → List EventTimestamp → Type 0
Least m ts = All (λ t. m ≤ t) ts × In m ts

reduce_min-le : (m : ℕ) (ts : List ℕ) → reduce_min m ts ≤ m
unfolding reduce_min
reduce_min-le m [] = omega arith
reduce_min-le m (t ∷ ts) = omega (arith, reduce_min-le (min m t) ts)

All-reduce_min : (m : ℕ) (ts : List ℕ) → All (λ t. reduce_min m ts ≤ t) ts
unfolding reduce_min
All-reduce_min m [] = tt
All-reduce_min m (t ∷ ts) = ground (arith, reduce_min-le (min m t) ts, All-reduce_min (min m t) ts)

In-reduce_min : (m : ℕ) (ts : List ℕ) → (reduce_min m ts ≡ m) ⊎ In (reduce_min m ts) ts
unfolding reduce_min
In-reduce_min m [] = inl refl
In-reduce_min m (t ∷ ts) = ground (arith, In-reduce_min (min m t) ts)

minimum-Least : (ts : List ℕ) → 0 < length ts → Least (min_or (minimum ts)) ts
minimum-Least [] h = elim h [ ]
minimum-Least (t ∷ ts) h = ((reduce_min-le t ts, All-reduce_min t ts), In-reduce_min t ts)

All-replicate : (n : ℕ) → All (λ t. 0 ≤ t) (replicate n 0)
All-replicate zero = tt
All-replicate (suc n) = (omega arith, All-replicate n)

-- What holds of a tracker whose inputs never step back: the emitted watermark is their minimum.
abbrev pub IsMinimum : WatermarkTracker → Type 0
IsMinimum t = Least t.current_watermark t.input_watermarks

-- An update in range never panics and stores the watermark of its input. It emits exactly if the
-- least input has passed the last emitted watermark, and then emits that least input; otherwise
-- some input is still at or below the last emitted watermark, which stays.
pub update_lem :
    (t : WatermarkTracker) (i : ℕ) (w : Watermark)
    → i < length t.input_watermarks
    → let r = update i w t in
      let t' = r.1 in
      (t'.input_watermarks ≡ set t.input_watermarks i w.timestamp)
      × (((m : ℕ) × (r.0 ≡ ok (some (record { timestamp = m })))
            × (t'.current_watermark ≡ m)
            × (t.current_watermark < m)
            × Least m t'.input_watermarks)
          ⊎ ((m : ℕ) × (r.0 ≡ ok none)
              × (t'.current_watermark ≡ t.current_watermark)
              × (m ≤ t.current_watermark)
              × In m t'.input_watermarks))
unfolding update
update_lem t i w h = elim (Bool-cases (ltb t.current_watermark m)) [
  | inl e ↦ (ground arith, inl (m, ground arith, ground arith, ground arith, ground (arith, least)))
  | inr e ↦ (ground arith, inr (m, ground arith, ground arith, ground arith, ground (arith, least)))
]
  where
    inputs : List EventTimestamp
    inputs = set t.input_watermarks i w.timestamp

    m : EventTimestamp
    m = min_or (minimum inputs)

    least : Least m inputs
    least = minimum-Least inputs (omega (arith, length-set t.input_watermarks i w.timestamp))

-- For inputs that never step back, the last emitted watermark is their minimum, after any update.
pub update-IsMinimum :
    (t : WatermarkTracker) (i : ℕ) (w : Watermark)
    → i < length t.input_watermarks
    → (old : ℕ) → get_elem? t.input_watermarks i ≡ some old
    → old ≤ w.timestamp
    → IsMinimum t
    → IsMinimum (update i w t).1
unfolding update
update-IsMinimum t i w h old e le v = ground (arith, least, grown)
  where
    inputs : List EventTimestamp
    inputs = set t.input_watermarks i w.timestamp

    m : EventTimestamp
    m = min_or (minimum inputs)

    least : Least m inputs
    least = minimum-Least inputs (omega (arith, length-set t.input_watermarks i w.timestamp))

    above : All (λ x. t.current_watermark ≤ x) inputs
    above =
        All-set _ t.input_watermarks i w.timestamp v.0
          (omega (arith, All-get_elem? _ t.input_watermarks i v.0 e))

    grown : t.current_watermark ≤ m
    grown = All_at_In _ m inputs above least.1
