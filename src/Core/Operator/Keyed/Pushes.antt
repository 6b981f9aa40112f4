-- ===== src/Core/Operator/Keyed/Pushes.antt =====
-- What the buffers of join.rs hold after records were pushed.
use flume_rs.Base.{
  ◌≡◌, refl, List, [], ◌∷◌, Bool, false, ◌&&◌, ◌||◌, Option, none, some, ◌==◌, nat_eq, list_eq,
  pair_eq, if◌then◌else◌, arith,
}
use flume_rs.Base.Keys.{list_beq_iff}
use flume_rs.Base.HashMap.{HashMap, get, get-insert}
use flume_rs.Core.Time.{EventTimestamp}
use flume_rs.Core.Record.{Bytes}
use flume_rs.Core.Result.{ok}
use flume_rs.Core.Window.{Window, window_eq, window_beq_iff, WindowAssigner}
use flume_rs.Core.Operator.Keyed.{WindowKey, or_create, record_key}
use flume_rs.Core.Operator.Keyed.State.{KeyedState, push_to, push_all, keep}

abbrev pub member : Window → List Window → Bool
member w [] = false
member w (v ∷ vs) = v == w || member w vs

abbrev pub Distinct : List Window → Type 0
Distinct [] = Unit
Distinct (w ∷ ws) = (member w ws ≡ false) × Distinct ws

pub record_key-eq-key_of :
    (k : Option Bytes) (pool : List Bytes) → (record_key k pool).0 ≡ or_create k []
record_key-eq-key_of (some k) pool = refl
record_key-eq-key_of none [] = refl
record_key-eq-key_of none (v ∷ pool) = refl

module _ {S : Type 0} (default : S) (push : S → S) where
  -- The entry of the windows that are pushed to, after the push; the others stay.
  pub get-push_all :
      (key : Bytes) (m : HashMap WindowKey S) (ws : List Window) (wk : WindowKey)
      → Distinct ws
      → get wk (push_all default push key m ws) ≡ (
          if key == wk.0 && member wk.1 ws
          then some (push (or_create (get wk m) default))
          else get wk m)
  unfolding push_all
  get-push_all key m [] (k, u) d = ground arith
  get-push_all key m (w ∷ ws) (k, u) d = ground (
    arith,
    get-push_all key (push_to default push key m w) ws (k, u) d.1,
    get-insert (key, w) (k, u) (push (or_create (get (key, w) m) default)) m,
    list_beq_iff key k,
    window_beq_iff w u,
  )

  pub keep_step :
      {C : Type 0} (assigner : WindowAssigner) (k : Option Bytes) (t : EventTimestamp)
      (windows : List Window) (op : KeyedState S) (c : C)
      → assigner t ≡ some windows
      → keep assigner default push k t (op, c) ≡ (
        ok tt,
        (
          record {
            state = push_all default push (or_create k []) op.state windows;
            key_pool = (record_key k op.key_pool).1;
          },
          c,
        ),
      )
  unfolding keep
  keep_step assigner k t windows op c h = rw (h, keep) (rw (record_key-eq-key_of k op.key_pool))
