-- ===== src/Runtime/Dag/Links.antt =====
-- The adjacency list, the degrees and the first queue of crates/flume-runtime/src/dag.rs.
use flume_rs.Base.{
  ℕ, ◌+◌, ◌^◌, ◌≤◌, ◌<◌, ◌≡◌, refl, sym, ap, subst, ◌∙◌, List, [], ◌∷◌, ◌++◌, none, some, length,
  length-set, get_elem?, get_elem?-set_self, get_elem?-set_ne, set, replicate, length-replicate,
  get_elem?-replicate, length-append, eqb, eqb_iff, if◌then◌else◌, All, arith, add64, Bool-cases,
  inl, inr,
}
use mathlib.Core.List.{append_assoc, append-nil}
use flume_rs.Runtime.Dag.{LogicalEdge, Links, link, link_all}
use flume_rs.Runtime.Dag.Counts.{pending, row}

-- The edges go from nodes to nodes of a graph of `n` nodes.
abbrev pub InRange : ℕ → List LogicalEdge → Type 0
InRange n = All (λ e. (e.from < n) × (e.to < n))

-- The links after the edges `es`, of which `m` more are to come.
pub record Linked (n : ℕ) (es : List LogicalEdge) (links : Links) : Type 0 where
  pub rows : length links.0 ≡ n
  pub size : length links.1 ≡ n
  pub at_row : (u : ℕ) → u < n → get_elem? links.0 u ≡ some (row u es)
  pub at_degree : (v : ℕ) → v < n → get_elem? links.1 v ≡ some (pending [] v es)

row-append_one :
    (u : ℕ) (es : List LogicalEdge) (e : LogicalEdge)
    → row u (es ++ e ∷ []) ≡ (if eqb e.from u then row u es ++ e.to ∷ [] else row u es)
row-append_one u [] e = ground arith
row-append_one u (x ∷ es) e = ground (arith, row-append_one u es e)

pending-append_one :
    (v : ℕ) (es : List LogicalEdge) (e : LogicalEdge)
    → pending [] v (es ++ e ∷ []) ≡ pending [] v es + (if eqb e.to v then 1 else 0)
pending-append_one v [] e = ground arith
pending-append_one v (x ∷ es) e = ground (arith, pending-append_one v es e)

pub pending-le : (v : ℕ) (es : List LogicalEdge) → pending [] v es ≤ length es
pending-le v [] = omega arith
pending-le v (e ∷ es) = ground (arith, pending-le v es)

module _ (n : ℕ) where
  link_lem :
      (es : List LogicalEdge) (e : LogicalEdge) (links : Links)
      → Linked n es links
      → (e.from < n) × (e.to < n)
      → length es + 1 < 2 ^ 64
      → (links' : Links) × (link e links ≡ some links') × Linked n (es ++ e ∷ []) links'
  link_lem es e links i r b =
      let row' = row e.from es ++ e.to ∷ [] in
      let d = pending [] e.to es + 1 in
      (
        (set links.0 e.from row', set links.1 e.to d),
        rw (i.at_row e.from r.0, link)
            (rw (i.at_degree e.to r.1)
              (ap (λ x. some (set links.0 e.from row', set links.1 e.to x)) count)),
        record {
          rows = length-set links.0 e.from row' ∙ i.rows;
          size = length-set links.1 e.to d ∙ i.size;
          at_row = λ u h. elim (Bool-cases (eqb e.from u)) [
            | inl q ↦ ground (
              arith,
              row-append_one u es e,
              eqb_iff e.from u,
              get_elem?-set_self links.0 e.from row',
              i.rows,
            )
            | inr q ↦
                get_elem?-set_ne links.0 e.from u row' (λ p. ground (arith, eqb_iff e.from u))
                ∙ i.at_row u h
                ∙ ap some (sym (row-append_one u es e ∙ rw q refl))
          ];
          at_degree = λ v h. elim (Bool-cases (eqb e.to v)) [
            | inl q ↦ ground (
              arith,
              pending-append_one v es e,
              eqb_iff e.to v,
              get_elem?-set_self links.1 e.to d,
              i.size,
            )
            | inr q ↦
                get_elem?-set_ne links.1 e.to v d (λ p. ground (arith, eqb_iff e.to v))
                ∙ i.at_degree v h
                ∙ ap some (sym (pending-append_one v es e ∙ rw q (omega arith)))
          ];
        },
      )
    where
      count : add64 (pending [] e.to es) 1 ≡ pending [] e.to es + 1
      count = ground (arith, pending-le e.to es)

  pub link_all_lem :
      (es rest : List LogicalEdge) (links : Links)
      → Linked n es links
      → InRange n rest
      → length es + length rest < 2 ^ 64
      → (links' : Links) × (link_all rest links ≡ some links') × Linked n (es ++ rest) links'
  unfolding link_all
  link_all_lem es [] links i r b =
      (links, refl, subst (λ x. Linked n x links) (sym (append-nil es)) i)
  link_all_lem es (e ∷ rest) links i r b =
      let (links1, q, i1) = link_lem es e links i r.0 (omega arith) in
      let (links2, q2, i2) =
        link_all_lem (es ++ e ∷ []) rest links1 i1 r.1 (omega (arith, length-append es (e ∷ []))) in
      (
        links2,
        ap (λ o. elim o [ none ↦ none | some l ↦ link_all rest l ]) q ∙ q2,
        subst (λ x. Linked n x links2) (append_assoc es (e ∷ []) rest) i2,
      )

  pub start-Linked : Linked n [] (replicate n [], replicate n 0)
  start-Linked = record {
    rows = length-replicate n [];
    size = length-replicate n 0;
    at_row = λ u h. get_elem?-replicate n u [] h;
    at_degree = λ v h. get_elem?-replicate n v 0 h;
  }
