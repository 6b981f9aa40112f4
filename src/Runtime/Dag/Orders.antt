-- ===== src/Runtime/Dag/Orders.antt =====
-- What `topological_order` of crates/flume-runtime/src/dag.rs returns.
use mathlib.Core.List.{append-nil}
use flume_rs.Base.{
  ℕ, zero, suc, ◌^◌, ◌<◌, ◌≡◌, refl, sym, ap, subst, ◌∙◌, List, [], ◌∷◌, Option, none, some,
  some_inj, true, length, get_elem?, lt-get_elem?, get_elem?_of_lt, replicate, eqb, eqb_iff,
  if◌then◌else◌, All, All-map_of, arith, Bool-cases, inl, inr,
}
use flume_rs.Runtime.Dag.{
  LogicalGraph, LogicalEdge, returns, panics, drain, finished, topological_order, sources,
}
use flume_rs.Runtime.Dag.Counts.{contains, Distinct, pending, nonzero, Follows}
use flume_rs.Runtime.Dag.Visit.{Inv}
use flume_rs.Runtime.Dag.Links.{InRange, link_all_lem, start-Linked}
use flume_rs.Runtime.Dag.Start.{start-Inv}
use flume_rs.Runtime.Dag.Sorts.{drain_lem}

-- Every node of the graph once, each after the nodes that have an edge to it.
pub record IsTopological (g : LogicalGraph) (order : List ℕ) : Type 0 where
  pub all_nodes : length order ≡ length g.nodes
  pub in_range : All (λ v. v < length g.nodes) order
  pub distinct : Distinct order
  pub covers : (v : ℕ) → v < length g.nodes → contains v order ≡ true
  pub follows : Follows g.edges [] order

nonzero-zero : (ds : List ℕ) → ((v d : ℕ) → get_elem? ds v ≡ some d → d ≡ 0) → nonzero ds ≡ 0
nonzero-zero [] h = refl
nonzero-zero (d ∷ ds) h = ground (arith, h 0 d refl, nonzero-zero ds (λ v e k. h (suc v) e k))

zero-nonzero : (ds : List ℕ) (v d : ℕ) → nonzero ds ≡ 0 → get_elem? ds v ≡ some d → d ≡ 0
zero-nonzero [] v d h e = cc
zero-nonzero (x ∷ ds) zero d h e = ground (arith, some_inj e)
zero-nonzero (x ∷ ds) (suc v) d h e = ground (arith, zero-nonzero ds v d)

-- No edge is pending where all that lead to `v` come from seen nodes.
pending-zero :
    (seen : List ℕ) (v : ℕ) (es : List LogicalEdge)
    → All (λ e. e.to ≡ v → contains e.from seen ≡ true) es
    → pending seen v es ≡ 0
pending-zero seen v [] a = refl
pending-zero seen v (e ∷ es) a = ground (arith, eqb_iff e.to v, a.0, pending-zero seen v es a.1)

module _ (g : LogicalGraph) where
  -- A run of `topological_order`: the order that the loop leaves, and its degrees.
  abbrev EndsIn : List ℕ → List ℕ → Type 0
  EndsIn order degs =
      (topological_order g
        ≡ returns (if eqb (length order) (length g.nodes) then some order else none))
      × Inv g.edges (length g.nodes) order [] degs []
      × Follows g.edges [] order

  runs :
      InRange (length g.nodes) g.edges
      → length g.edges < 2 ^ 64
      → (order : List ℕ) × (degs : List ℕ) × EndsIn order degs
  unfolding topological_order
  runs r b =
      let n = length g.nodes in
      let (links, linked, i) =
        link_all_lem n [] g.edges (replicate n [], replicate n 0) (start-Linked n) r
          (omega (arith, b)) in
      let s = start-Inv n g.edges links i b in
      let (order, degs, run, i', f) =
        drain_lem g.edges n links.0 n links.1 (sources 0 links.1) [] i.at_row r s tt
          (omega (arith, s.counted)) in
      (
        order,
        degs,
        (
          ap
                (λ o. elim o [
                  | none ↦ panics
                  | some l ↦ finished n (drain n l.0 l.1 (sources 0 l.1) [])
                ])
                linked
              ∙ ap (finished n) run,
          i',
          f,
        ),
      )

  order-IsTopological :
      (order degs : List ℕ)
      → Inv g.edges (length g.nodes) order [] degs []
      → Follows g.edges [] order
      → length order ≡ length g.nodes
      → IsTopological g order
  order-IsTopological order degs i f e = record {
    all_nodes = e;
    in_range =
        All-map_of _ _ order (λ v h. omega (arith, lt-get_elem? degs v h, i.size))
          (subst (All (λ v. get_elem? degs v ≡ some 0)) (append-nil order) i.ready);
    distinct = subst Distinct (append-nil order) i.distinct;
    covers = λ v h.
        let (d, p) = get_elem?_of_lt degs v (omega (arith, h, i.size)) in
        let z = zero-nonzero degs v d (omega (arith, i.counted, e)) p in
        ap (contains v) (sym (append-nil order)) ∙ i.found v (p ∙ ap some z);
    follows = f;
  }

  -- For a graph of fewer than 2 ^ 64 edges that all join nodes of the graph, `topological_order`
  -- terminates, on one unit of fuel for each node, and does not panic; and an order that it returns
  -- has every node of the graph exactly once, each after all nodes that have an edge to it.
  pub topological_order_returns :
      InRange (length g.nodes) g.edges
      → length g.edges < 2 ^ 64
      → (r : Option (List ℕ)) × (topological_order g ≡ returns r)
        × ((order : List ℕ) → r ≡ some order → IsTopological g order)
  topological_order_returns r b =
      let (order, degs, (run, i, f)) = runs r b in
      (
        if eqb (length order) (length g.nodes) then some order else none,
        run,
        λ order' e. elim (Bool-cases (eqb (length order) (length g.nodes))) [
          | inl q ↦
              subst (IsTopological g) (some_inj (sym (rw q refl) ∙ e))
                (order-IsTopological order degs i f ((eqb_iff (length order) (length g.nodes)).0 q))
          | inr q ↦ absurd (clash (sym (rw q refl) ∙ e))
        ],
      )
    where
      clash : {o : List ℕ} → none ≡ some o → ⊥
      clash e = cc

  preds_seen :
      (rank : ℕ → ℕ) (order degs : List ℕ) (k v : ℕ) (es : List LogicalEdge)
      → ((u d : ℕ) → rank u < k → get_elem? degs u ≡ some d → d ≡ 0)
      → Inv g.edges (length g.nodes) order [] degs []
      → rank v < suc k
      → All (λ e. rank e.from < rank e.to) es
      → InRange (length g.nodes) es
      → All (λ e. e.to ≡ v → contains e.from order ≡ true) es
  preds_seen rank order degs k v [] ih i h a r = tt
  preds_seen rank order degs k v (e ∷ es) ih i h a r = (
    (λ q.
        let (d, p) = get_elem?_of_lt degs e.from (omega (arith, r.0.0, i.size)) in
        let zero_at = p ∙ ap some (ih e.from d (omega (arith, h, a.0, ap rank q)) p) in
        ap (contains e.from) (sym (append-nil order)) ∙ i.found e.from zero_at),
    preds_seen rank order degs k v es ih i h a.1 r.1,
  )

  -- With a rank that every edge raises, every node loses all its edges.
  degree_zero :
      (rank : ℕ → ℕ) (order degs : List ℕ)
      → All (λ e. rank e.from < rank e.to) g.edges
      → InRange (length g.nodes) g.edges
      → Inv g.edges (length g.nodes) order [] degs []
      → (k v d : ℕ) → rank v < k
      → get_elem? degs v ≡ some d
      → d ≡ 0
  degree_zero rank order degs a r i zero v d h e = elim h [ ]
  degree_zero rank order degs a r i (suc k) v d h e =
      let ih = degree_zero rank order degs a r i k in
      omega (
        arith,
        i.degree v d e,
        pending-zero order v g.edges (preds_seen rank order degs k v g.edges ih i h a r),
      )

  -- If the graph has no cycle, so that some rank of the nodes rises along every edge, then
  -- `topological_order` returns an order, under the conditions on the edges above: all nodes, each
  -- once, each after those that have an edge to it.
  pub acyclic-IsTopological :
      (rank : ℕ → ℕ)
      → All (λ e. rank e.from < rank e.to) g.edges
      → InRange (length g.nodes) g.edges
      → length g.edges < 2 ^ 64
      → (order : List ℕ) × (topological_order g ≡ returns (some order)) × IsTopological g order
  acyclic-IsTopological rank a r b =
      let (order, degs, (run, i, f)) = runs r b in
      let none_left =
        nonzero-zero degs
          (λ v d e. degree_zero rank order degs a r i (suc (rank v)) v d (omega arith) e) in
      let e = full order degs i none_left in
      (
        order,
        run ∙ ap returns (rw ((eqb_iff (length order) (length g.nodes)).1 e) refl),
        order-IsTopological order degs i f e,
      )
    where
      full :
          (order degs : List ℕ)
          → Inv g.edges (length g.nodes) order [] degs []
          → nonzero degs ≡ 0
          → length order ≡ length g.nodes
      full order degs i z = omega (arith, i.counted, z)
