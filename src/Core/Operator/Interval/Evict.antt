-- ===== src/Core/Operator/Interval/Evict.antt =====
-- What interval_join.rs evicts at a watermark.
use flume_rs.Base.{
  ℕ, ◌+◌, ◌^◌, ◌≤◌, ◌<◌, ◌≡◌, refl, ap, ap₂, none, ◌∙◌, [], ◌∷◌, Bool, ◌&&◌, ◌||◌, ltb, length,
  true, not, All, leb, map, filter, filter_ext, list_eq, nat_eq, arith,
}
use flume_rs.Base.HashMap.{HashMap, get, IsMap}
use flume_rs.Base.HashMap.Entries.{remove_all-filter}
use flume_rs.Core.Time.{Duration, sub_duration}
use flume_rs.Core.Record.{Bytes, Watermark}
use flume_rs.Core.Collector.{Collector}
use flume_rs.Core.Operator.Interval.{
  ByTime, IntervalJoinState, IntervalJoinOperator, is_empty, is_below, remove_below, has_nothing,
  evict_one, evict, process_watermark,
}
use flume_rs.Core.Operator.Interval.Match.{in_bounds}

module _ {L R : Type 0} where
  -- No timestamp stands twice in a buffer.
  abbrev pub IsBuffer : Bytes × IntervalJoinState L R → Type 0
  IsBuffer e = IsMap e.1.left × IsMap e.1.right

  -- No key stands twice, and no timestamp in a buffer.
  abbrev pub IsValid : IntervalJoinOperator L R → Type 0
  IsValid op = IsMap op.state × All IsBuffer op.state

abbrev pub holds_some : {A : Type 0} → ByTime A → Bool
holds_some m = ltb 0 (length m)

module _ {A : Type 0} (upper : Duration) where
  -- The entries from which the watermark is at most `upper` away.
  abbrev pub in_reach : Watermark → ByTime A → ByTime A
  in_reach w = filter (λ e. leb w.timestamp (e.0 + upper))

  remove_below-in_reach :
      (w : Watermark) (m : ByTime A)
      → upper < 2 ^ 64
      → IsMap m
      → remove_below (sub_duration w.timestamp upper) m ≡ in_reach w m
  remove_below-in_reach w m u h =
      remove_all-filter (is_below (sub_duration w.timestamp upper)) m h
      ∙ filter_ext _ _ m (λ e. ground arith)

module _ {L R : Type 0} where
  holds_some_lem :
      (l : ByTime L) (r : ByTime R)
      → not (is_empty l && is_empty r) ≡ (holds_some l || holds_some r)
  holds_some_lem [] [] = refl
  holds_some_lem [] (e ∷ r) = ground arith
  holds_some_lem (e ∷ l) r = ground arith

module _ {L R : Type 0} (upper : Duration) where
  -- A buffer without what is out of reach.
  abbrev pub reduced : Watermark → Bytes × IntervalJoinState L R → Bytes × IntervalJoinState L R
  reduced w e =
      (e.0, record { left = in_reach upper w e.1.left; right = in_reach upper w e.1.right })

  evict_one-reduced :
      (w : Watermark) (m : HashMap Bytes (IntervalJoinState L R))
      → upper < 2 ^ 64
      → All IsBuffer m
      → map (λ e. (e.0, evict_one upper w e.1)) m ≡ map (reduced w) m
  evict_one-reduced w [] u h = refl
  evict_one-reduced w (e ∷ m) u h =
      ap₂ ◌∷◌
        (ap₂ (λ l r. (e.0, record { left = l; right = r }))
          (remove_below-in_reach upper w e.1.left u h.0.0)
          (remove_below-in_reach upper w e.1.right u h.0.1))
        (evict_one-reduced w m u h.1)

  get-map :
      (f : IntervalJoinState L R → IntervalJoinState L R) (k : Bytes)
      (m : HashMap Bytes (IntervalJoinState L R))
      → get k m ≡ none
      → get k (map (λ e. (e.0, f e.1)) m) ≡ none
  unfolding get
  get-map f k [] h = refl
  get-map f k (e ∷ m) h = ground (arith, get-map f k m)

  map-IsMap :
      (f : IntervalJoinState L R → IntervalJoinState L R)
      (m : HashMap Bytes (IntervalJoinState L R))
      → IsMap m
      → IsMap (map (λ e. (e.0, f e.1)) m)
  map-IsMap f [] h = tt
  map-IsMap f (e ∷ m) h = (get-map f e.0 m h.0, map-IsMap f m h.1)

  -- The buffers after a watermark: what is out of reach is gone, and so are empty buffers.
  abbrev pub remaining :
      Watermark → HashMap Bytes (IntervalJoinState L R) → HashMap Bytes (IntervalJoinState L R)
  remaining w m = filter (λ e. holds_some e.1.left || holds_some e.1.right) (map (reduced w) m)

  evict-remaining :
      (w : Watermark) (op : IntervalJoinOperator L R)
      → upper < 2 ^ 64
      → IsValid op
      → (evict upper w op).state ≡ remaining w op.state
  unfolding evict
  evict-remaining w op u v =
      remove_all-filter (has_nothing upper) _ (map-IsMap (evict_one upper w) op.state v.0)
      ∙ ap (filter (λ e. not (has_nothing upper e))) (evict_one-reduced w op.state u v.1)
      ∙ filter_ext _ _ (map (reduced w) op.state) (λ e. holds_some_lem e.1.left e.1.right)

  -- With an upper bound below 2 ^ 64, and no key or timestamp that stands twice: at a watermark the
  -- operator forwards the watermark, and ends as the collector does then. Of each buffer it keeps,
  -- whatever the forwarding does, exactly the values from whose timestamp the watermark is at most
  -- the upper bound away, and drops the keys that have none; and a left value that has a right
  -- record not older than the watermark in its interval is one of those that are kept.
  pub interval_watermark_evicts :
      {J C Out : Type 0} (out : Collector C Out) (w : Watermark) (op : IntervalJoinOperator L R)
      (j : J) (c : C)
      → upper < 2 ^ 64
      → IsValid op
      → let t = process_watermark upper out w (op, (j, c)) in
        (t.0 ≡ (out.collect_watermark w c).0)
        × (t.1.1 ≡ (j, (out.collect_watermark w c).1))
        × (t.1.0.state ≡ remaining w op.state)
        × ((lower t_l t_r : ℕ)
            → w.timestamp ≤ t_r
            → in_bounds lower upper t_l t_r ≡ true
            → leb w.timestamp (t_l + upper) ≡ true)
  unfolding process_watermark
  interval_watermark_evicts out w op j c u v =
      (refl, refl, evict-remaining w op u v, λ lower t_l t_r le b. ground arith)
