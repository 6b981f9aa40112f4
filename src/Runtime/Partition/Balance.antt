-- ===== src/Runtime/Partition/Balance.antt =====
-- How partition.rs spreads records over the targets when it rebalances.
use native.Mathlib.Nat.{mod-lt, mod-add-mod, mod-eq_of_lt, mod-eq-sub-mod}
use flume_rs.Base.{
  ℕ, zero, suc, ◌+◌, ◌-◌, ◌%◌, ◌^◌, ◌<◌, ◌≡◌, inl, inr, refl, List, [], ◌∷◌, ◌++◌, Option, In,
  length, Bool-cases, leb, add64, arith,
}
use flume_rs.Core.Record.{Bytes}
use flume_rs.Core.Result.{FlumeResult, ok, err, panic}
use flume_rs.Runtime.Partition.{Partitioner, select}
use flume_rs.Runtime.Partition.Targets.{target-ok}

abbrev pub targets_of : FlumeResult (List ℕ) → List ℕ
targets_of (ok ts) = ts
targets_of (err e) = []
targets_of panic = []

-- The distance from `next` to the selection of `i`.
reaches : (next n i : ℕ) → i < n → (d : ℕ) × (d < n) × ((next + d) % n ≡ i)
reaches next n i h = elim (Bool-cases (leb (next % n) i)) [
  | inl e ↦ (
    i - next % n,
    ground arith,
    ground (
      arith,
      mod-lt next {m = n} (omega arith),
      mod-add-mod next n (i - next % n),
      mod-eq_of_lt {n = i} {m = n},
    ),
  )
  | inr e ↦ (
    i + n - next % n,
    ground (arith, mod-lt next {m = n} (omega arith)),
    ground (
      arith,
      mod-lt next {m = n} (omega arith),
      mod-add-mod next n (i + n - next % n),
      mod-eq-sub-mod {n = i + n} {m = n},
      mod-eq_of_lt {n = i} {m = n},
    ),
  )
]

module _ (hash_one : Bytes → ℕ) (n : ℕ) where
  -- The targets of records that are sent one after the other.
  abbrev pub targets_of_all : List (Option Bytes × ℕ) → Partitioner → List ℕ
  targets_of_all [] p = []
  targets_of_all ((key, source) ∷ rs) p =
      let (r, p') = select hash_one key source n p in targets_of r ++ targets_of_all rs p'

  In-targets_of_all :
      (rs : List (Option Bytes × ℕ)) (next d i : ℕ)
      → 0 < n
      → next + length rs < 2 ^ 64
      → d < length rs
      → (next + d) % n ≡ i
      → In i (targets_of_all rs (Partitioner.rebalance next))
  unfolding select
  In-targets_of_all [] next d i p b h e = absurd (omega arith)
  In-targets_of_all ((key, source) ∷ rs) next zero i p b h e = ground (arith, target-ok next n p)
  In-targets_of_all ((key, source) ∷ rs) next (suc d) i p b h e =
      ground (arith, target-ok next n p, In-targets_of_all rs (next + 1) d i p)

  length-targets_of_all :
      (rs : List (Option Bytes × ℕ)) (next : ℕ)
      → 0 < n
      → length (targets_of_all rs (Partitioner.rebalance next)) ≡ length rs
  unfolding select
  length-targets_of_all [] next p = refl
  length-targets_of_all ((key, source) ∷ rs) next p =
      ground (arith, target-ok next n p, length-targets_of_all rs (add64 next 1) p)

  -- While its counter does not wrap, and there is a target, a partitioner that rebalances sends one
  -- record to each target out of any `n` records in a row, where `n` is the number of targets.
  pub rebalance_covers :
      (rs : List (Option Bytes × ℕ)) (next : ℕ)
      → 0 < n
      → length rs ≡ n
      → next + n < 2 ^ 64
      → let targets = targets_of_all rs (Partitioner.rebalance next) in
        (length targets ≡ n) × ((i : ℕ) → i < n → In i targets)
  rebalance_covers rs next p l b = (
    omega (arith, length-targets_of_all rs next p, l),
    λ i h.
        let d = reaches next n i h in
        In-targets_of_all rs next d.0 i p (omega (arith, l, b)) (omega (arith, l, d.1)) d.2,
  )
