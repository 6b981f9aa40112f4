-- ===== src/Runtime/Partition/Targets.antt =====
-- What partition.rs selects.
use flume_rs.Base.{ℕ, ◌%◌, ◌<◌, ◌≡◌, [], ◌∷◌, arith}
use flume_rs.Core.Result.{ok}
use flume_rs.Runtime.Partition.{target}

pub target-ok : (x n : ℕ) → 0 < n → target x n ≡ ok (x % n ∷ [])
target-ok x n h = ground arith
