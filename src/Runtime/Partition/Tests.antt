-- ===== src/Runtime/Partition/Tests.antt =====
-- The theorems on partition.rs at three targets.
use flume_rs.Base.{ℕ, length}
use flume_rs.Core.Record.{Bytes}

abbrev by_length : Bytes → ℕ
by_length key = length key
