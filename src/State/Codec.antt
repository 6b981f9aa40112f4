-- ===== src/State/Codec.antt =====
-- What crates/flume-state takes from the crate bitcode: the two functions `serialize` and
-- `deserialize` at the types at which it calls them. `none` is an error of bitcode.
use Prim.Native.String.{String}
use flume_rs.Base.{◌≡◌, List, Option, some}
use flume_rs.Base.Keys.{Eq, string_eq, nat_eq, list_eq}
use flume_rs.Base.HashMap.{HashMap, get, IsMap}
use flume_rs.Core.Record.{Bytes}

pub record Codec (A : Type 0) : Type 0 where
  pub serialize : A → Option Bytes
  pub deserialize : Bytes → Option A

-- The values of the states have the types `V`, the keys of the map states the type `K`.
pub record Bitcode (K V : Type 0) : Type 0 where
  pub value : Codec (Option V)
  pub list : Codec (List V)
  pub entries : Codec (HashMap K V)
  pub table : Codec (HashMap String Bytes)
  pub keyed_table : Codec (HashMap Bytes Bytes)

-- Two maps with the same entries, in whatever order.
abbrev pub SameMap : {K V : Type 0} ⦃e : Eq K⦄ → HashMap K V → HashMap K V → Type 0
SameMap {K = K} m n = IsMap n × ((k : K) → get k n ≡ get k m)

-- What was serialized is deserialized to the same value, a map to a map with the same entries.
abbrev pub RoundTrips : {A : Type 0} → (A → A → Type 0) → Codec A → Type 0
RoundTrips {A = A} Same codec =
    (a : A) (bytes : Bytes)
    → codec.serialize a ≡ some bytes
    → (b : A) × (codec.deserialize bytes ≡ some b) × Same a b

pub record IsFaithful {K V : Type 0} ⦃e : Eq K⦄ (bitcode : Bitcode K V) : Type 0 where
  pub value : RoundTrips (λ a b. b ≡ a) bitcode.value
  pub list : RoundTrips (λ a b. b ≡ a) bitcode.list
  pub entries : RoundTrips SameMap bitcode.entries
  pub table : RoundTrips SameMap bitcode.table
  pub keyed_table : RoundTrips SameMap bitcode.keyed_table
