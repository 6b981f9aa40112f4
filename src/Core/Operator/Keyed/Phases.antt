-- ===== src/Core/Operator/Keyed/Phases.antt =====
-- The phases of a watermark in join.rs, under the default trigger.
use flume_rs.Base.{◌≡◌, refl, ap, sym, subst, ◌∙◌, [], ◌∷◌, nat_eq, list_eq, pair_eq}
use flume_rs.Base.HashMap.{HashMap, keys, IsMap}
use flume_rs.Base.HashMap.Entries.{Finds, Finds-self, Finds-filter}
use flume_rs.Core.Record.{Watermark}
use flume_rs.Core.Result.{ok, ◌>>◌, Run, for_each, >>-cong, EndsAs, phases-EndsAs}
use flume_rs.Core.Window.{window_eq, event_time_trigger}
use flume_rs.Core.Operator.Keyed.{WindowKey, to_fire, to_purge}
use flume_rs.Core.Operator.Keyed.Due.{due, not_due, to_fire-keys, to_purge-keys, purge_all-filter}
use flume_rs.Core.Operator.Keyed.State.{KeyedState, purge, fire_one, fire_and_purge}

module _ {S D : Type 0} (fire : WindowKey → S → Run D (Unit {0})) where
  abbrev pub fire_entry : WindowKey × S → Run D (Unit {0})
  fire_entry x = fire x.0 x.1

  for_each-fire_one :
      (m n : HashMap WindowKey S) (d : D)
      → Finds m n
      → for_each (fire_one fire m) (keys n) d ≡ for_each fire_entry n d
  unfolding for_each
  for_each-fire_one m [] d f = refl
  for_each-fire_one m (x ∷ n) d f =
      >>-cong (fire_one fire m x.0) (fire_entry x) _ _ d (rw (f.0, fire_one))
        (λ c. for_each-fire_one m n c f.1)

module _ {S D : Type 0} (fire : WindowKey → S → Run D (Unit {0})) (forward : Run D (Unit {0})) where
  fire_due :
      (w : Watermark) (m : HashMap WindowKey S) (d : D)
      → IsMap m
      → (for_each (fire_entry fire) (due w m) >> forward) d
        ≡ (for_each (fire_one fire m) (to_fire event_time_trigger w (keys m)) >> forward) d
  fire_due w m d h =
      >>-cong (for_each (fire_entry fire) (due w m))
        (for_each (fire_one fire m) (to_fire event_time_trigger w (keys m))) forward forward d
        (rw (to_fire-keys w m)
          (sym (for_each-fire_one fire m (due w m) d (Finds-filter _ m m (Finds-self m h)))))
        (λ c. refl)

  -- The phases end as one pass over the entries that are due does, and then the forwarding; and
  -- leave the other entries.
  pub fire_and_purge-EndsAs :
      (w : Watermark) (op : KeyedState S) (d : D)
      → IsMap op.state
      → let t = fire_and_purge event_time_trigger fire forward w (op, d) in
        let u = (for_each (fire_entry fire) (due w op.state) >> forward) d in
        (t.0 ≡ u.0) × (t.1.1 ≡ u.1) × (t.0 ≡ ok tt → t.1.0.state ≡ not_due w op.state)
  unfolding fire_and_purge
  fire_and_purge-EndsAs w op d h =
      let t = fire_and_purge event_time_trigger fire forward w (op, d) in
      let wks = to_purge event_time_trigger w (keys op.state) in
      let e =
        subst (λ u. EndsAs t u (purge op wks)) (sym (fire_due w op.state d h))
          (phases-EndsAs
            (for_each (fire_one fire op.state) (to_fire event_time_trigger w (keys op.state)) d)
            (λ o. purge o wks) forward op) in
      (e.0, e.1, λ fine. ap (λ (o : KeyedState S). o.state) (e.2 fine) ∙ left_over w op h)
    where
      left_over :
          (w : Watermark) (op : KeyedState S)
          → IsMap op.state
          → (purge op (to_purge event_time_trigger w (keys op.state))).state ≡ not_due w op.state
      left_over w op h = rw (to_purge-keys w op.state) (purge_all-filter _ op.state op.key_pool h)
