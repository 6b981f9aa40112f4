-- ===== src/Runtime/Dag/Start.antt =====
-- The first queue of crates/flume-runtime/src/dag.rs: the nodes of degree 0.
use flume_rs.Base.{
  some_inj, ℕ, zero, suc, ◌+◌, ◌^◌, ◌<◌, ◌≡◌, refl, sym, ap, ◌∙◌, List, [], ◌∷◌, some, true, false,
  length, get_elem?, lt-get_elem?, eqb, eqb_iff, All, arith, Bool-cases, inl, inr,
}
use flume_rs.Runtime.Dag.{LogicalEdge, Links, sources}
use flume_rs.Runtime.Dag.Counts.{contains, Distinct, pending, nonzero}
use flume_rs.Runtime.Dag.Visit.{Inv}
use flume_rs.Runtime.Dag.Links.{Linked, pending-le}

-- No node below `id` is among the sources from `id` on.
sources_above : (k id : ℕ) (ds : List ℕ) → k < id → contains k (sources id ds) ≡ false
sources_above k id [] h = refl
sources_above k id (d ∷ ds) h = ground (arith, sources_above k (suc id) ds, eqb_iff id k)

sources-Distinct : (id : ℕ) (ds : List ℕ) → Distinct (sources id ds)
sources-Distinct id [] = tt
sources-Distinct id (d ∷ ds) =
    ground (arith, sources_above id (suc id) ds, sources-Distinct (suc id) ds)

length-sources : (id : ℕ) (ds : List ℕ) → length (sources id ds) + nonzero ds ≡ length ds
length-sources id [] = refl
length-sources id (d ∷ ds) = ground (arith, length-sources (suc id) ds)

sources_zero :
    (degs : List ℕ) (id : ℕ) (ds : List ℕ)
    → ((i : ℕ) → get_elem? degs (id + i) ≡ get_elem? ds i)
    → All (λ v. get_elem? degs v ≡ some 0) (sources id ds)
sources_zero degs id [] h = tt
sources_zero degs id (d ∷ ds) h = elim (Bool-cases (eqb d 0)) [
  | inl q ↦ rw q (
    ap (get_elem? degs) (omega arith) ∙ h 0 ∙ ap some ((eqb_iff d 0).0 q),
    sources_zero degs (suc id) ds (shifted h),
  )
  | inr q ↦ rw q (sources_zero degs (suc id) ds (shifted h))
]
  where
    shifted :
        ((i : ℕ) → get_elem? degs (id + i) ≡ get_elem? (d ∷ ds) i)
        → (i : ℕ) → get_elem? degs (suc id + i) ≡ get_elem? ds i
    shifted h i = ap (get_elem? degs) (omega arith) ∙ h (suc i)

sources_found :
    (id : ℕ) (ds : List ℕ) (i : ℕ)
    → get_elem? ds i ≡ some 0
    → contains (id + i) (sources id ds) ≡ true
sources_found id [] i h = cc
sources_found id (d ∷ ds) zero h = ground (arith, eqb_iff id (id + 0))
sources_found id (d ∷ ds) (suc i) h = ground (arith, sources_found (suc id) ds i h)

-- A bound on every element that a lookup finds.
bounded_entries :
    (P : ℕ → Type 0) (ds : List ℕ) → ((i d : ℕ) → get_elem? ds i ≡ some d → P d) → All P ds
bounded_entries P [] h = tt
bounded_entries P (d ∷ ds) h = (h 0 d refl, bounded_entries P ds (λ i e k. h (suc i) e k))

pub start-Inv :
    (n : ℕ) (es : List LogicalEdge) (links : Links)
    → Linked n es links
    → length es < 2 ^ 64
    → Inv es n [] [] links.1 (sources 0 links.1)
start-Inv n es links i b = record {
  size = i.size;
  small =
      bounded_entries (λ d. d < 2 ^ 64) links.1
        (λ v d h. ground (arith, degree v d h, pending-le v es));
  degree = λ v d h. degree v d h ∙ omega arith;
  ready = sources_zero links.1 0 links.1 (λ v. ap (get_elem? links.1) (omega arith));
  found = λ v h. ground (arith, sources_found 0 links.1 v h);
  distinct = sources-Distinct 0 links.1;
  counted = omega (arith, length-sources 0 links.1, i.size);
}
  where
    degree : (v d : ℕ) → get_elem? links.1 v ≡ some d → d ≡ pending [] v es
    degree v d h =
        let l = lt-get_elem? links.1 v h in
        some_inj (sym h ∙ i.at_degree v (omega (arith, l, i.size)))
