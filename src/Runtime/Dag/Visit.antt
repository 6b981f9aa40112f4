-- ===== src/Runtime/Dag/Visit.antt =====
-- What the loops of crates/flume-runtime/src/dag.rs keep.
use mathlib.Core.List.{append_assoc}
use flume_rs.Base.{
  ℕ, zero, suc, ◌+◌, ◌-◌, ◌^◌, ◌<◌, ◌≡◌, refl, sym, ap, subst, ◌∙◌, List, [], ◌∷◌, ◌++◌, none, some,
  true, false, ◌||◌, length, length-set, length-append, get_elem?, get_elem?-set_self,
  get_elem?-set_ne, lt-get_elem?, get_elem?_of_lt, set, eqb, eqb_iff, if◌then◌else◌, All,
  All-append, All-set, All-get_elem?, arith, sub64, Bool-cases, inl, inr,
}
use flume_rs.Runtime.Dag.{LogicalEdge, visit}
use flume_rs.Runtime.Dag.Counts.{
  contains, Distinct, occurrences, pending, nonzero, Distinct-append_one, nonzero-set,
  contains-append_one,
}

-- After the nodes of `order` and some of the edges from the last of them: the edges to `rest` from
-- that node are still to be taken off the degrees.
pub record Inv (es : List LogicalEdge) (n : ℕ) (order rest degs queue : List ℕ) : Type 0 where
  pub size : length degs ≡ n
  pub small : All (λ d. d < 2 ^ 64) degs
  pub degree : (v d : ℕ) → get_elem? degs v ≡ some d → d ≡ pending order v es + occurrences v rest
  pub ready : All (λ v. get_elem? degs v ≡ some 0) (order ++ queue)
  pub found : (v : ℕ) → get_elem? degs v ≡ some 0 → contains v (order ++ queue) ≡ true
  pub distinct : Distinct (order ++ queue)
  pub counted : length order + length queue + nonzero degs ≡ n

not-contains :
    (w : ℕ) (vs : List ℕ) (degs : List ℕ) (d : ℕ)
    → get_elem? degs w ≡ some (suc d)
    → All (λ v. get_elem? degs v ≡ some 0) vs
    → contains w vs ≡ false
not-contains w [] degs d h a = refl
not-contains w (v ∷ vs) degs d h a = elim (Bool-cases (eqb v w)) [
  | inl q ↦ absurd (clash (sym a.0 ∙ ap (get_elem? degs) ((eqb_iff v w).0 q) ∙ h))
  | inr q ↦ rw q (not-contains w vs degs d h a.1)
]
  where
    clash : some 0 ≡ some (suc d) → ⊥
    clash e = ground arith

zeros-set :
    (w : ℕ) (vs : List ℕ) (degs : List ℕ) (d : ℕ)
    → get_elem? degs w ≡ some (suc d)
    → All (λ v. get_elem? degs v ≡ some 0) vs
    → All (λ v. get_elem? (set degs w d) v ≡ some 0) vs
zeros-set w [] degs d h a = tt
zeros-set w (v ∷ vs) degs d h a = (
  get_elem?-set_ne degs w v d (λ e. clash (sym a.0 ∙ ap (get_elem? degs) (sym e) ∙ h)) ∙ a.0,
  zeros-set w vs degs d h a.1,
)
  where
    clash : some 0 ≡ some (suc d) → ⊥
    clash e = ground arith

module _ (es : List LogicalEdge) (n : ℕ) (order : List ℕ) where
  degree_step :
      (w : ℕ) (ws degs queue : List ℕ) (d : ℕ)
      → get_elem? degs w ≡ some (suc d)
      → Inv es n order (w ∷ ws) degs queue
      → (v d' : ℕ) → get_elem? (set degs w d) v ≡ some d'
      → d' ≡ pending order v es + occurrences v ws
  degree_step w ws degs queue d h i v d' k = elim (Bool-cases (eqb w v)) [
    | inl q ↦ ground (
      arith,
      eqb_iff w v,
      get_elem?-set_self degs w d (lt-get_elem? degs w h),
      i.degree w (suc d) h,
    )
    | inr q ↦ ground (
      arith,
      q,
      i.degree v d' (sym (get_elem?-set_ne degs w v d (λ e. ground (arith, eqb_iff w v))) ∙ k),
    )
  ]

  small_step :
      (w : ℕ) (degs : List ℕ) (d : ℕ)
      → get_elem? degs w ≡ some (suc d)
      → All (λ x. x < 2 ^ 64) degs
      → d < 2 ^ 64
  small_step w degs d h a = omega (arith, All-get_elem? (λ x. x < 2 ^ 64) degs w a h)

  -- A neighbour whose degree falls to 0 joins the queue; another waits.
  joins :
      (w : ℕ) (ws degs queue : List ℕ)
      → get_elem? degs w ≡ some 1
      → Inv es n order (w ∷ ws) degs queue
      → Inv es n order ws (set degs w 0) (queue ++ w ∷ [])
  joins w ws degs queue h i = record {
    size = length-set degs w 0 ∙ i.size;
    small = All-set (λ x. x < 2 ^ 64) degs w 0 i.small (omega arith);
    degree = degree_step w ws degs queue 0 h i;
    ready =
        subst (All (λ v. get_elem? (set degs w 0) v ≡ some 0)) (append_assoc order queue (w ∷ [])) (
          All-append _ (order ++ queue) (w ∷ []) (zeros-set w (order ++ queue) degs 0 h i.ready)
            (get_elem?-set_self degs w 0 (lt-get_elem? degs w h), tt));
    found = λ v k.
        ap (contains v) (sym (append_assoc order queue (w ∷ [])))
        ∙ contains-append_one v w (order ++ queue)
        ∙ joined v k;
    distinct = subst Distinct (append_assoc order queue (w ∷ [])) (
        Distinct-append_one w (order ++ queue) i.distinct
          (not-contains w (order ++ queue) degs 0 h i.ready));
    counted = omega (arith, i.counted, nonzero-set degs w 0 h, length-append queue (w ∷ []));
  }
    where
      joined :
          (v : ℕ)
          → get_elem? (set degs w 0) v ≡ some 0
          → (contains v (order ++ queue) || eqb w v) ≡ true
      joined v k = elim (Bool-cases (eqb w v)) [
        | inl q ↦ ground (arith, q)
        | inr q ↦ ground (
          arith,
          i.found v (sym (get_elem?-set_ne degs w v 0 (λ e. ground (arith, eqb_iff w v))) ∙ k),
        )
      ]

  waits :
      (w : ℕ) (ws degs queue : List ℕ) (d : ℕ)
      → get_elem? degs w ≡ some (suc (suc d))
      → Inv es n order (w ∷ ws) degs queue
      → Inv es n order ws (set degs w (suc d)) queue
  waits w ws degs queue d h i = record {
    size = length-set degs w (suc d) ∙ i.size;
    small = All-set (λ x. x < 2 ^ 64) degs w (suc d) i.small (small_step w degs (suc d) h i.small);
    degree = degree_step w ws degs queue (suc d) h i;
    ready = zeros-set w (order ++ queue) degs (suc d) h i.ready;
    found = λ v k. elim (Bool-cases (eqb w v)) [
      | inl q ↦ absurd (
          nonzero_at (
            sym (get_elem?-set_self degs w (suc d) (lt-get_elem? degs w h))
            ∙ ap (get_elem? (set degs w (suc d))) ((eqb_iff w v).0 q)
            ∙ k))
      | inr q ↦
          i.found v (sym (get_elem?-set_ne degs w v (suc d) (λ e. ground (arith, eqb_iff w v))) ∙ k)
    ];
    distinct = i.distinct;
    counted = ground (arith, i.counted, nonzero-set degs w (suc d) h);
  }
    where
      nonzero_at : some (suc d) ≡ some 0 → ⊥
      nonzero_at e = ground arith

  at_least_one :
      (w : ℕ) (ws degs queue : List ℕ)
      → Inv es n order (w ∷ ws) degs queue
      → w < n
      → (d : ℕ) × (get_elem? degs w ≡ some (suc d))
  at_least_one w ws degs queue i h =
      let (d, e) = get_elem?_of_lt degs w (omega (arith, i.size)) in
      (d - 1, e ∙ ap some (ground (arith, i.degree w d e, eqb_iff w w)))

  pred64 : (d : ℕ) → suc d < 2 ^ 64 → sub64 (suc d) 1 ≡ d
  pred64 d h = ground arith

  abbrev pub Visited : List ℕ → List ℕ → List ℕ → Type 0
  Visited ws degs queue =
      (degs' : List ℕ) × (queue' : List ℕ) × (visit ws degs queue ≡ some (degs', queue'))
      × Inv es n order [] degs' queue'

  eqb-suc : (d : ℕ) → eqb (suc d) 0 ≡ false
  eqb-suc d = ground arith

  visit-cons :
      (w : ℕ) (ws degs queue : List ℕ) (d : ℕ)
      → get_elem? degs w ≡ some (suc d)
      → suc d < 2 ^ 64
      → visit (w ∷ ws) degs queue
        ≡ visit ws (set degs w d) (if eqb d 0 then queue ++ w ∷ [] else queue)
  unfolding visit
  visit-cons w ws degs queue d e b =
      ap
        (λ o. elim o [
          | none ↦ none
          | some x ↦
              visit ws (set degs w (sub64 x 1))
                (if eqb (sub64 x 1) 0 then queue ++ w ∷ [] else queue)
        ])
        e
      ∙ ap (λ x. visit ws (set degs w x) (if eqb x 0 then queue ++ w ∷ [] else queue)) (pred64 d b)

  Visited-cons :
      (w : ℕ) (ws degs queue : List ℕ)
      → Inv es n order (w ∷ ws) degs queue
      → ((degs' queue' : List ℕ) → Inv es n order ws degs' queue' → Visited ws degs' queue')
      → (d : ℕ) × (get_elem? degs w ≡ some (suc d))
      → Visited (w ∷ ws) degs queue
  Visited-cons w ws degs queue i ih (zero, e) =
      let (degs', queue', r, i') =
        ih (set degs w 0) (queue ++ w ∷ []) (joins w ws degs queue e i) in
      (degs', queue', visit-cons w ws degs queue 0 e (omega arith) ∙ r, i')
  Visited-cons w ws degs queue i ih (suc d, e) =
      let (degs', queue', r, i') = ih (set degs w (suc d)) queue (waits w ws degs queue d e i) in
      let b = All-get_elem? (λ x. x < 2 ^ 64) degs w i.small e in
      (degs', queue', visit-cons w ws degs queue (suc d) e b ∙ rw (eqb-suc d) r, i')

  -- The loop over the neighbours ends, without a panic and without a degree below 0.
  pub visit_lem :
      (ws degs queue : List ℕ)
      → All (λ w. w < n) ws
      → Inv es n order ws degs queue
      → Visited ws degs queue
  unfolding visit
  visit_lem [] degs queue a i = (degs, queue, refl, i)
  visit_lem (w ∷ ws) degs queue a i =
      Visited-cons w ws degs queue i (λ degs' queue' i'. visit_lem ws degs' queue' a.1 i')
        (at_least_one w ws degs queue i a.0)
