-- ===== src/Core/Record.antt =====
-- crates/flume-core/src/record.rs and either.rs. A `Vec<u8>` is the list of its bytes.
use Prim.Native.String.{String}
use flume_rs.Base.{ℕ, List, Option, none, some}
use flume_rs.Core.Time.{EventTimestamp}

abbrev pub Bytes : Type 0
Bytes = List ℕ

pub record Record {ℓ} (T : Type ℓ) : Type ℓ where
  pub value : T
  pub timestamp : EventTimestamp
  pub key : Option Bytes

module _ {ℓ} {T : Type ℓ} where
  abbrev pub new : T → EventTimestamp → Record T
  new v t = record { value = v; timestamp = t; key = none }

  abbrev pub with_key : Record T → Bytes → Record T
  with_key r k = record r { key = some k }

abbrev pub map_record {ℓ κ} : {T : Type ℓ} {U : Type κ} → Record T → (T → U) → Record U
map_record r f = record { value = f r.value; timestamp = r.timestamp; key = r.key }

pub record Watermark : Type 0 where
  pub timestamp : EventTimestamp

pub record CheckpointBarrier : Type 0 where
  pub checkpoint_id : ℕ
  pub timestamp : EventTimestamp

pub record CheckpointAck : Type 0 where
  pub checkpoint_id : ℕ
  pub operator_name : String
  pub state_bytes : Bytes

pub data StreamElement {ℓ} (T : Type ℓ) : Type ℓ where
  rec : Record T → StreamElement T
  watermark : Watermark → StreamElement T
  checkpoint_barrier : CheckpointBarrier → StreamElement T

pub data Either {ℓ κ} (L : Type ℓ) (R : Type κ) : Type (ℓ ⊔ κ) where
  left : L → Either L R
  right : R → Either L R
