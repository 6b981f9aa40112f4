-- ===== src/Runtime/Coordinator/Tests.antt =====
-- The theorems on coordinator.rs at two operators.
use Prim.Native.String.{String}
use flume_rs.Base.{ℕ, ◌≡◌, refl, List, [], ◌∷◌}
use flume_rs.Runtime.Coordinator.{Arrival, ack, late, trigger_and_collect}
use flume_rs.Runtime.Coordinator.Complete.{Saved, keeping, names_not_checked}

abbrev expected : List String
expected = "map" ∷ "sink" ∷ []

abbrev from : String → ℕ → Arrival
from name id = ack (record { checkpoint_id = id; operator_name = name; state_bytes = id ∷ [] })

abbrev arrivals : List Arrival
arrivals = from "map" 3 ∷ from "map" 4 ∷ from "sink" 4 ∷ late ∷ []

abbrev nothing : List Saved × List ℕ
nothing = ([], [])

names_not_checked_example :
    trigger_and_collect keeping expected [] arrivals 4 nothing
    ≡ trigger_and_collect keeping ("other" ∷ "third" ∷ []) [] arrivals 4 nothing
names_not_checked_example =
    names_not_checked keeping expected ("other" ∷ "third" ∷ []) [] arrivals 4 nothing refl
