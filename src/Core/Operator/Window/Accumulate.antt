-- ===== src/Core/Operator/Window/Accumulate.antt =====
-- What the accumulators of window.rs hold: the aggregate of the values that were assigned to them.
use flume_rs.Base.{
  ◌≡◌, refl, ◌∙◌, List, [], ◌∷◌, Bool, false, ◌&&◌, ◌||◌, Option, none, some, All, ◌==◌, nat_eq,
  list_eq, pair_eq, if◌then◌else◌, arith,
}
use flume_rs.Base.HashMap.{HashMap, get, get-insert}
use flume_rs.Core.Record.{Bytes, Record}
use flume_rs.Core.Result.{ok, for_each}
use flume_rs.Base.Keys.{list_beq_iff}
use flume_rs.Core.Window.{Window, window_eq, window_beq_iff, WindowAssigner, AggregateFunction}
use flume_rs.Core.Operator.Keyed.{WindowKey, or_create, record_key}
use flume_rs.Core.Operator.Window.{WindowOperator, add_to, add_all, process_record}

abbrev pub member : Window → List Window → Bool
member w [] = false
member w (v ∷ vs) = v == w || member w vs

abbrev pub Distinct : List Window → Type 0
Distinct [] = Unit
Distinct (w ∷ ws) = (member w ws ≡ false) × Distinct ws

module _ {In Acc Out : Type 0} (assigner : WindowAssigner)
    (aggregate : AggregateFunction In Acc Out) where
  open aggregate use {create_accumulator, add}

  abbrev added : Option Acc → In → Option Acc
  added o v = some (add (or_create o create_accumulator) v)

  get-add_all :
      (key : Bytes) (v : In) (m : HashMap WindowKey Acc) (ws : List Window) (wk : WindowKey)
      → Distinct ws
      → get wk (add_all assigner aggregate key v m ws)
        ≡ (if key == wk.0 && member wk.1 ws then added (get wk m) v else get wk m)
  unfolding add_all
  get-add_all key v m [] (k, u) d = ground arith
  get-add_all key v m (w ∷ ws) (k, u) d = ground (
    arith,
    get-add_all key v (add_to assigner aggregate key v m w) ws (k, u) d.1,
    get-insert (key, w) (k, u) (add (or_create (get (key, w) m) create_accumulator) v) m,
    list_beq_iff key k,
    window_beq_iff w u,
  )

  -- The windows of a record, and the key under which it is kept.
  abbrev pub windows_of : Record In → List Window
  windows_of r = or_create (assigner r.timestamp) []

  abbrev pub key_of : Record In → Bytes
  key_of r = or_create r.key []

  -- The assigner does not panic at the record, and names no window twice.
  abbrev pub Assigns : Record In → Type 0
  Assigns r = (assigner r.timestamp ≡ some (windows_of r)) × Distinct (windows_of r)

  -- The values of the records with the key of `wk` to which its window was assigned, in order.
  abbrev pub values_for : WindowKey → List (Record In) → List In
  values_for wk [] = []
  values_for wk (r ∷ rs) =
      if key_of r == wk.0 && member wk.1 (windows_of r)
      then r.value ∷ values_for wk rs
      else values_for wk rs

  -- The aggregate of a list of values, on top of what there was.
  abbrev pub aggregate_from : Option Acc → List In → Option Acc
  aggregate_from o [] = o
  aggregate_from o (v ∷ vs) = aggregate_from (added o v) vs

  -- The operator after one record.
  abbrev after_record : WindowOperator Acc → Record In → WindowOperator Acc
  after_record op r = record {
    accumulators = add_all assigner aggregate (key_of r) r.value op.accumulators (windows_of r);
    key_pool = (record_key r.key op.key_pool).1;
  }

  record_key-eq-key_of :
      (k : Option Bytes) (pool : List Bytes) → (record_key k pool).0 ≡ or_create k []
  record_key-eq-key_of (some k) pool = refl
  record_key-eq-key_of none [] = refl
  record_key-eq-key_of none (v ∷ pool) = refl

  aggregate_step :
      (r : Record In) (rs : List (Record In)) (op : WindowOperator Acc) (wk : WindowKey)
      → Distinct (windows_of r)
      → aggregate_from (get wk (after_record op r).accumulators) (values_for wk rs)
        ≡ aggregate_from (get wk op.accumulators) (values_for wk (r ∷ rs))
  aggregate_step r rs op wk d =
      ground (arith, get-add_all (key_of r) r.value op.accumulators (windows_of r) wk d)

  module _ {C : Type 0} where
    process_record_step :
        (r : Record In) (op : WindowOperator Acc) (c : C)
        → assigner r.timestamp ≡ some (windows_of r)
        → process_record assigner aggregate r (op, c) ≡ (ok tt, (after_record op r, c))
    unfolding process_record
    process_record_step r op c h =
        rw (h, process_record) (rw (record_key-eq-key_of r.key op.key_pool))

    -- The records that `process_record` takes one by one leave, for every key and window, the
    -- aggregate of exactly those values that belong there, in their order of arrival, on top of
    -- the accumulator that was there before. It never fails and sends nothing, if the assigner
    -- panics at none of the records and assigns each window once.
    pub process_record_accumulates :
        (rs : List (Record In)) (op : WindowOperator Acc) (c : C)
        → All Assigns rs
        → (op' : WindowOperator Acc) × (for_each (process_record assigner aggregate) rs (op, c)
            ≡ (ok tt, (op', c)))
          × ((wk : WindowKey)
              → get wk op'.accumulators
                ≡ aggregate_from (get wk op.accumulators) (values_for wk rs))
    unfolding for_each
    process_record_accumulates [] op c h = (op, refl, λ wk. refl)
    process_record_accumulates (r ∷ rs) op c h =
        let rest = process_record_accumulates rs (after_record op r) c h.1 in
        (
          rest.0,
          rw (process_record_step r op c h.0.0) rest.1,
          λ wk. rest.2 wk ∙ aggregate_step r rs op wk h.0.1,
        )
