-- ===== src/Core/Operator/Join/Keeps.antt =====
-- What the window join and the window cogroup of join.rs buffer.
use flume_rs.Base.{
  ◌≡◌, refl, ◌∙◌, List, [], ◌∷◌, ◌&&◌, some, All, ◌==◌, nat_eq, list_eq, pair_eq, if◌then◌else◌,
  arith,
}
use flume_rs.Base.HashMap.{get}
use flume_rs.Core.Record.{Record, Either}
use flume_rs.Core.Result.{ok, for_each}
use flume_rs.Core.Window.{Window, window_eq, WindowAssigner}
use flume_rs.Core.Operator.Keyed.{WindowKey, or_create, record_key}
use flume_rs.Core.Operator.Keyed.State.{KeyedState, keep, push_all}
use flume_rs.Core.Operator.Keyed.Pushes.{member, Distinct, get-push_all, keep_step}
use flume_rs.Core.Operator.Join.Buffered.{
  joined, grouped, pushed_from, pushed_from-joined, pushed_from-grouped,
}
use flume_rs.Core.Operator.Join.{
  WindowJoinOperator, WindowCogroupOperator, empty_join, empty_cogroup, push_join, push_cogroup,
  join_record, cogroup_record,
}

module _ {L R : Type 0} (assigner : WindowAssigner) where
  abbrev pub windows_of : Record (Either L R) → List Window
  windows_of r = or_create (assigner r.timestamp) []

  -- The assigner does not panic at the record, and names no window twice.
  abbrev pub Assigns : Record (Either L R) → Type 0
  Assigns r = (assigner r.timestamp ≡ some (windows_of r)) × Distinct (windows_of r)

  -- The records with the key of `wk` that the assigner gives its window, in order of arrival.
  abbrev pub records_for : WindowKey → List (Record (Either L R)) → List (Record (Either L R))
  records_for wk [] = []
  records_for wk (r ∷ rs) =
      if or_create r.key [] == wk.0 && member wk.1 (windows_of r)
      then r ∷ records_for wk rs
      else records_for wk rs

  module _ {S : Type 0} (default : S) (push : Record (Either L R) → S → S) where
    abbrev after_record : KeyedState S → Record (Either L R) → KeyedState S
    after_record op r = record {
      state = push_all default (push r) (or_create r.key []) op.state (windows_of r);
      key_pool = (record_key r.key op.key_pool).1;
    }

    pushed_step :
        (r : Record (Either L R)) (rs : List (Record (Either L R))) (op : KeyedState S)
        (wk : WindowKey)
        → Distinct (windows_of r)
        → pushed_from default push (get wk (after_record op r).state) (records_for wk rs)
          ≡ pushed_from default push (get wk op.state) (records_for wk (r ∷ rs))
    pushed_step r rs op wk d =
        ground
          (arith, get-push_all default (push r) (or_create r.key []) op.state (windows_of r) wk d)

    pub keeps_lem :
        {C : Type 0} (rs : List (Record (Either L R))) (op : KeyedState S) (c : C)
        → All Assigns rs
        → (op' : KeyedState S) × (for_each
              (λ r. keep assigner default (push r) r.key r.timestamp)
              rs
              (op, c)
            ≡ (ok tt, (op', c)))
          × ((wk : WindowKey)
              → get wk op'.state ≡ pushed_from default push (get wk op.state) (records_for wk rs))
    unfolding for_each
    keeps_lem [] op c h = (op, refl, λ wk. refl)
    keeps_lem (r ∷ rs) op c h =
        let rest = keeps_lem rs (after_record op r) c h.1 in
        (
          rest.0,
          rw (keep_step default (push r) assigner r.key r.timestamp (windows_of r) op c h.0.0)
              rest.1,
          λ wk. rest.2 wk ∙ pushed_step r rs op wk h.0.1,
        )

  -- The records that either operator takes one by one leave, for every key and window, exactly what
  -- the buffer held before and, after it, the values that belong there, each side in its order of
  -- arrival (in the join with their timestamps). Taking them never fails and sends nothing, if the
  -- assigner panics at none of the records and assigns each window once.
  pub join_records_keep :
      {C : Type 0} (rs : List (Record (Either L R))) (c : C) (op : WindowJoinOperator L R)
      (cg : WindowCogroupOperator L R)
      → All Assigns rs
      → ((op' : WindowJoinOperator L R) × (for_each (join_record assigner) rs (op, c)
            ≡ (ok tt, (op', c)))
          × ((wk : WindowKey) → get wk op'.state ≡ joined (get wk op.state) (records_for wk rs)))
        × ((cg' : WindowCogroupOperator L R) × (for_each (cogroup_record assigner) rs (cg, c)
              ≡ (ok tt, (cg', c)))
            × ((wk : WindowKey) → get wk cg'.state ≡ grouped (get wk cg.state) (records_for wk rs)))
  join_records_keep rs c op cg h =
      let j = keeps_lem empty_join (λ r. push_join r.value r.timestamp) rs op c h in
      let g = keeps_lem empty_cogroup (λ r. push_cogroup r.value) rs cg c h in
      (
        (j.0, j.1, λ wk. j.2 wk ∙ pushed_from-joined (get wk op.state) (records_for wk rs)),
        (g.0, g.1, λ wk. g.2 wk ∙ pushed_from-grouped (get wk cg.state) (records_for wk rs)),
      )
