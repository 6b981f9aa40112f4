-- ===== src/Core/Operator/Keyed.antt =====
-- What window.rs and join.rs, in crates/flume-core/src/operator, both declare: the key of a window,
-- the pool of key buffers, and the loop that asks the trigger which windows to fire and to purge.
pub mod Due
pub mod State
pub mod Phases
pub mod Pushes
use flume_rs.Base.{
  ℕ, List, [], ◌∷◌, ◌++◌, Option, none, some, length, ltb, if◌then◌else◌, is_some, list_eq, nat_eq,
  pair_eq,
}
use flume_rs.Base.HashMap.{HashMap, get, remove}
use flume_rs.Core.Record.{Bytes, Watermark}
use flume_rs.Core.Window.{Window, window_eq, Trigger, TriggerResult}

-- `WindowKey`: the bytes of the key, and the window.
abbrev pub WindowKey : Type 0
WindowKey = Bytes × Window

abbrev pub key_pool_cap : ℕ
key_pool_cap = 1024

-- The end of the vector is the head of the list. A popped buffer is cleared, and `unwrap_or_default`
-- gives an empty one, so the buffer is empty on both branches.
abbrev pub pool_get : List Bytes → Bytes × List Bytes
pool_get [] = ([], [])
pool_get (v ∷ pool) = ([], pool)

abbrev pub pool_put : List Bytes → Bytes → List Bytes
pool_put pool buf = if ltb (length pool) key_pool_cap then buf ∷ pool else pool

-- `record.key.clone().unwrap_or_else(|| self.pool_get())`
abbrev pub record_key : Option Bytes → List Bytes → Bytes × List Bytes
record_key (some k) pool = (k, pool)
record_key none pool = pool_get pool

abbrev pub or_create {ℓ} : {A : Type ℓ} → Option A → A → A
or_create none a = a
or_create (some b) a = b

-- The keys that a watermark fires, and those that it purges.
module _ (trigger : Trigger) (w : Watermark) where
  abbrev pub fires_on : TriggerResult → WindowKey → List WindowKey
  fires_on TriggerResult.fire wk = wk ∷ []
  fires_on TriggerResult.purge wk = []
  fires_on TriggerResult.fire_and_purge wk = wk ∷ []
  fires_on TriggerResult.continue wk = []

  abbrev pub purges_on : TriggerResult → WindowKey → List WindowKey
  purges_on TriggerResult.fire wk = []
  purges_on TriggerResult.purge wk = wk ∷ []
  purges_on TriggerResult.fire_and_purge wk = wk ∷ []
  purges_on TriggerResult.continue wk = []

  abbrev pub to_fire : List WindowKey → List WindowKey
  to_fire [] = []
  to_fire (wk ∷ wks) = fires_on (trigger.on_event_time w.timestamp wk.1) wk ++ to_fire wks

  abbrev pub to_purge : List WindowKey → List WindowKey
  to_purge [] = []
  to_purge (wk ∷ wks) = purges_on (trigger.on_event_time w.timestamp wk.1) wk ++ to_purge wks

-- `if let Some(_) = map.remove(&wk) { self.pool_put(wk.key) }`, for each window to purge.
module _ {V : Type 0} where
  abbrev pub purge_one :
      HashMap WindowKey V × List Bytes → WindowKey → HashMap WindowKey V × List Bytes
  purge_one (m, pool) wk =
      if is_some (get wk m) then (remove wk m, pool_put pool wk.0) else (m, pool)

  unfoldable pub purge_all :
      HashMap WindowKey V × List Bytes → List WindowKey → HashMap WindowKey V × List Bytes
  purge_all s [] = s
  purge_all s (wk ∷ wks) = purge_all (purge_one s wk) wks
