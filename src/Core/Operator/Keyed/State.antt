-- ===== src/Core/Operator/Keyed/State.antt =====
-- What the two operators of crates/flume-core/src/operator/join.rs share: a buffer for each key and
-- window, which records are pushed into and which a watermark fires and purges. Both write this out;
-- they differ in what they push and in what they send for a window.
use flume_rs.Base.{List, [], ◌∷◌, Option, none, some, list_eq, nat_eq, pair_eq}
use flume_rs.Base.HashMap.{HashMap, keys, get, insert}
use flume_rs.Core.Time.{EventTimestamp}
use flume_rs.Core.Record.{Bytes, Watermark}
use flume_rs.Core.Result.{Run, ok, panic, for_each, on_second, on_first, ◌>>◌}
use flume_rs.Core.Window.{Window, window_eq, WindowAssigner, Trigger}
use flume_rs.Core.Operator.Keyed.{WindowKey, record_key, or_create, to_fire, to_purge, purge_all}

-- The fields of `WindowJoinOperator` and `WindowCogroupOperator` that change.
pub record KeyedState (S : Type 0) : Type 0 where
  pub state : HashMap WindowKey S
  pub key_pool : List Bytes

module _ {S : Type 0} where
  abbrev pub new_state : KeyedState S
  new_state = record { state = []; key_pool = [] }

  -- `self.state.entry(wk).or_default()`, and a push into the entry.
  abbrev pub push_to : S → (S → S) → Bytes → HashMap WindowKey S → Window → HashMap WindowKey S
  push_to default push key m window =
      insert (key, window) (push (or_create (get (key, window) m) default)) m

  unfoldable pub push_all :
      S → (S → S) → Bytes → HashMap WindowKey S → List Window → HashMap WindowKey S
  push_all default push key m [] = m
  push_all default push key m (window ∷ windows) =
      push_all default push key (push_to default push key m window) windows

  unfoldable pub keep :
      {C : Type 0}
      → WindowAssigner
      → S
      → (S → S)
      → Option Bytes
      → EventTimestamp
      → Run (KeyedState S × C) (Unit {0})
  keep assigner default push k timestamp (op, c) =
      let (key, pool) = record_key k op.key_pool in
      elim (assigner timestamp) [
        | none ↦ (panic, (record op { key_pool = pool }, c))
        | some windows ↦ (
          ok tt,
          (record { state = push_all default push key op.state windows; key_pool = pool }, c),
        )
      ]

  abbrev pub purge : KeyedState S → List WindowKey → KeyedState S
  purge op wks =
      let (m, pool) = purge_all (op.state, op.key_pool) wks in record { state = m; key_pool = pool }

  -- `if let Some(state) = self.state.get(wk)`, with what is sent for an entry.
  abbrev pub fire_one :
      {D : Type 0}
      → (WindowKey → S → Run D (Unit {0}))
      → HashMap WindowKey S
      → WindowKey
      → Run D (Unit {0})
  fire_one fire m wk d = elim (get wk m) [ none ↦ (ok tt, d) | some v ↦ fire wk v d ]

  -- The three phases of `process_watermark`.
  unfoldable pub fire_and_purge :
      {D : Type 0}
      → Trigger
      → (WindowKey → S → Run D (Unit {0}))
      → Run D (Unit {0})
      → Watermark
      → Run (KeyedState S × D) (Unit {0})
  fire_and_purge trigger fire forward w s =
      let wks = keys s.0.state in
      (do
        on_second (for_each (fire_one fire s.0.state) (to_fire trigger w wks))
        on_first (λ op. purge op (to_purge trigger w wks))
        on_second forward)
        s
