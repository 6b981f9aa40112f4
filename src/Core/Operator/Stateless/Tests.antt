-- ===== src/Core/Operator/Stateless/Tests.antt =====
-- The theorem on map.rs, filter.rs and flat_map.rs at two records.
use flume_rs.Base.{ℕ, ◌+◌, ◌≡◌, refl, List, [], ◌∷◌, Bool, ltb}
use flume_rs.Core.Record.{Record, StreamElement, new}
use flume_rs.Core.Result.{for_each}
use flume_rs.Core.Collector.{recorder}
use flume_rs.Core.Operator.Stateless.{map_process, flat_map_process, filter_process}
use flume_rs.Core.Operator.Stateless.Agree.{one, kept, flat_map_covers}

-- Two functions that count their calls.
abbrev add_count : ℕ → ℕ → ℕ × ℕ
add_count v calls = (v + calls, calls + 1)

abbrev is_small : ℕ → ℕ → Bool × ℕ
is_small v calls = (ltb v 5, calls + 1)

abbrev two_records : List (Record ℕ)
two_records = new 3 10 ∷ new 8 20 ∷ []

abbrev start : ℕ × List (StreamElement ℕ)
start = (0, [])

flat_map_covers_example :
    (for_each (map_process recorder add_count) two_records start
      ≡ for_each (flat_map_process recorder (one add_count)) two_records start)
    × (for_each (filter_process recorder is_small) two_records start
        ≡ for_each (flat_map_process recorder (kept is_small)) two_records start)
flat_map_covers_example =
    flat_map_covers recorder add_count is_small two_records two_records start (refl, (refl, tt))
      (refl, (refl, tt))
