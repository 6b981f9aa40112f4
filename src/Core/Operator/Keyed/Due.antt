-- ===== src/Core/Operator/Keyed/Due.antt =====
-- The windows that are due at a watermark, and what is left when they are purged.
use flume_rs.Base.{
  ◌≡◌, ◌≤◌, refl, ap, ◌∙◌, List, [], ◌∷◌, Bool, not, filter, leb, length, nat_eq, list_eq, pair_eq,
  arith, Bool-cases, inl, inr,
}
use flume_rs.Base.Keys.{beq_refl}
use flume_rs.Base.HashMap.{HashMap, keys, get, remove, IsMap}
use flume_rs.Base.HashMap.Entries.{Avoids, Avoids-filter}
use flume_rs.Core.Record.{Bytes, Watermark}
use flume_rs.Core.Window.{window_eq, event_time_trigger}
use flume_rs.Core.Operator.Keyed.{
  WindowKey, to_fire, to_purge, purge_one, purge_all, pool_put, key_pool_cap,
}

-- The watermark has reached the end of the window.
abbrev pub is_due : Watermark → WindowKey → Bool
is_due w wk = leb wk.1.end w.timestamp

module _ {V : Type 0} where
  abbrev pub due : Watermark → HashMap WindowKey V → HashMap WindowKey V
  due w = filter (λ x. is_due w x.0)

  abbrev pub not_due : Watermark → HashMap WindowKey V → HashMap WindowKey V
  not_due w = filter (λ x. not (is_due w x.0))

  pub to_fire-keys :
      (w : Watermark) (m : HashMap WindowKey V)
      → to_fire event_time_trigger w (keys m) ≡ keys (due w m)
  to_fire-keys w [] = refl
  to_fire-keys w (x ∷ m) = ground (arith, to_fire-keys w m)

  pub to_purge-keys :
      (w : Watermark) (m : HashMap WindowKey V)
      → to_purge event_time_trigger w (keys m) ≡ keys (due w m)
  to_purge-keys w [] = refl
  to_purge-keys w (x ∷ m) = ground (arith, to_purge-keys w m)

  purge_all-cons :
      (k : WindowKey) (v : V) (m : HashMap WindowKey V) (pool : List Bytes) (ks : List WindowKey)
      → Avoids k ks
      → (purge_all ((k, v) ∷ m, pool) ks).0 ≡ (k, v) ∷ (purge_all (m, pool) ks).0
  unfolding purge_all get remove
  purge_all-cons k v m pool [] h = refl
  purge_all-cons k v m pool (j ∷ ks) h = ground (
    arith,
    purge_all-cons k v m pool ks h.1,
    purge_all-cons k v (remove j m) (pool_put pool j.0) ks h.1,
  )

  purge_one_self :
      (k : WindowKey) (v : V) (m : HashMap WindowKey V) (pool : List Bytes)
      → purge_one ((k, v) ∷ m, pool) k ≡ (m, pool_put pool k.0)
  unfolding get remove
  purge_one_self k v m pool = rw (beq_refl k)

  pub purge_all-filter :
      (p : WindowKey × V → Bool) (m : HashMap WindowKey V) (pool : List Bytes)
      → IsMap m
      → (purge_all (m, pool) (keys (filter p m))).0 ≡ filter (λ x. not (p x)) m
  unfolding purge_all get remove
  purge_all-filter p [] pool h = refl
  purge_all-filter p ((k, v) ∷ m) pool h = elim (Bool-cases (p (k, v))) [
    | inl e ↦ rw e (
        ap (λ s. (purge_all s (keys (filter p m))).0) (purge_one_self k v m pool)
        ∙ purge_all-filter p m (pool_put pool k.0) h.1)
    | inr e ↦ rw e (
        purge_all-cons k v m pool (keys (filter p m)) (Avoids-filter k p m h.0)
        ∙ ap (◌∷◌ (k, v)) (purge_all-filter p m pool h.1))
  ]

  -- The pool keeps within its capacity.
  pub purge_all-pool :
      (m : HashMap WindowKey V) (pool : List Bytes) (ks : List WindowKey)
      → length pool ≤ key_pool_cap
      → length (purge_all (m, pool) ks).1 ≤ key_pool_cap
  unfolding purge_all
  purge_all-pool m pool [] h = h
  purge_all-pool m pool (k ∷ ks) h =
      ground (arith, purge_all-pool m pool ks h, purge_all-pool (remove k m) (pool_put pool k.0) ks)
