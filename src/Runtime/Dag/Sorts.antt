-- ===== src/Runtime/Dag/Sorts.antt =====
-- The topological order of crates/flume-runtime/src/dag.rs.
use mathlib.Core.List.{append_assoc}
use flume_rs.Base.{
  ℕ, zero, suc, ◌+◌, ◌≤◌, ◌<◌, ◌≡◌, refl, sym, ap, subst, ◌∙◌, List, [], ◌∷◌, ◌++◌, none, some,
  length, length-append, get_elem?, lt-get_elem?, All, arith,
}
use flume_rs.Runtime.Dag.{LogicalEdge, Ended, returns, drain, visit}
use flume_rs.Runtime.Dag.Counts.{
  contains, Distinct, Distinct-middle, pending-seen, pending-Ready, row, nonzero, Ready, Follows,
  Follows-append_one,
}
use flume_rs.Runtime.Dag.Visit.{Inv, visit_lem}
use flume_rs.Runtime.Dag.Links.{InRange}

row-InRange : (n u : ℕ) (es : List LogicalEdge) → InRange n es → All (λ w. w < n) (row u es)
row-InRange n u [] h = tt
row-InRange n u (e ∷ es) h = ground (arith, row-InRange n u es h.1)

All-middle : (P : ℕ → Type 0) (us : List ℕ) (v : ℕ) (vs : List ℕ) → All P (us ++ v ∷ vs) → P v
All-middle P [] v vs a = a.0
All-middle P (u ∷ us) v vs a = All-middle P us v vs a.1

module _ (es : List LogicalEdge) (n : ℕ) where
  -- The head of the queue moves to the order; the edges from it are to be taken off.
  popped :
      (order degs queue : List ℕ) (u : ℕ)
      → Inv es n order [] degs (u ∷ queue)
      → Inv es n (order ++ u ∷ []) (row u es) degs queue
  popped order degs queue u i = record {
    size = i.size;
    small = i.small;
    degree = λ v d h.
        i.degree v d h
        ∙ omega (arith, pending-seen u v order es (Distinct-middle u order queue i.distinct));
    ready =
        subst (All (λ v. get_elem? degs v ≡ some 0)) (sym (append_assoc order (u ∷ []) queue))
          i.ready;
    found = λ v h. ap (contains v) (append_assoc order (u ∷ []) queue) ∙ i.found v h;
    distinct = subst Distinct (sym (append_assoc order (u ∷ []) queue)) i.distinct;
    counted = omega (arith, i.counted, length-append order (u ∷ []));
  }

  -- A node that is popped comes after the nodes with an edge to it.
  popped-Ready :
      (order degs queue : List ℕ) (u : ℕ) → Inv es n order [] degs (u ∷ queue) → Ready es order u
  popped-Ready order degs queue u i =
      let zero_at = All-middle (λ v. get_elem? degs v ≡ some 0) order u queue i.ready in
      pending-Ready order u es (omega (arith, i.degree u 0 zero_at))

  abbrev pub Drained : List (List ℕ) → ℕ → List ℕ → List ℕ → List ℕ → Type 0
  Drained adjacency fuel degs queue order =
      (order' : List ℕ) × (degs' : List ℕ) × (drain fuel adjacency degs queue order
        ≡ returns order')
      × Inv es n order' [] degs' []
      × Follows es [] order'

  pub drain_lem :
      (adjacency : List (List ℕ)) (fuel : ℕ) (degs queue order : List ℕ)
      → ((u : ℕ) → u < n → get_elem? adjacency u ≡ some (row u es))
      → InRange n es
      → Inv es n order [] degs queue
      → Follows es [] order
      → length queue + nonzero degs ≤ fuel
      → Drained adjacency fuel degs queue order
  unfolding drain
  drain_lem adjacency zero degs [] order rows r i f b = (order, degs, refl, i, f)
  drain_lem adjacency (suc fuel) degs [] order rows r i f b = (order, degs, refl, i, f)
  drain_lem adjacency zero degs (u ∷ queue) order rows r i f b = absurd (omega (arith, b))
  drain_lem adjacency (suc fuel) degs (u ∷ queue) order rows r i f b =
      let zero_at = All-middle (λ v. get_elem? degs v ≡ some 0) order u queue i.ready in
      let below = lt-get_elem? degs u zero_at in
      let i1 = popped order degs queue u i in
      let (degs1, queue1, run, i2) =
        visit_lem es n (order ++ u ∷ []) (row u es) degs queue (row-InRange n u es r) i1 in
      let (order', degs', run', i', f') =
        drain_lem adjacency fuel degs1 queue1 (order ++ u ∷ []) rows r i2
          (Follows-append_one es [] order u f (popped-Ready order degs queue u i))
          (omega (arith, b, i2.counted, i.counted, length-append order (u ∷ []))) in
      (
        order',
        degs',
        ap
              (λ o. elim o [
                | none ↦ Ended.panics
                | some row' ↦ elim (visit row' degs queue) [
                  | none ↦ Ended.panics
                  | some s ↦ drain fuel adjacency s.0 s.1 (order ++ u ∷ [])
                ]
              ])
              (rows u (omega (arith, below, i.size)))
            ∙ ap
                (λ o. elim o [
                  | none ↦ Ended.panics
                  | some s ↦ drain fuel adjacency s.0 s.1 (order ++ u ∷ [])
                ])
                run
            ∙ run',
        i',
        f',
      )
