-- ===== src/Runtime/Physical/Assign.antt =====
-- The assignment of subtasks to slots in crates/flume-runtime/src/physical.rs.
use flume_rs.Base.{
  ℕ, zero, suc, ◌+◌, ◌≤◌, ◌<◌, ◌≡◌, refl, ap, ◌∙◌, List, [], ◌∷◌, ◌++◌, map, Option, some, none,
  some_inj, Bool, true, false, length, length-append, get_elem?, get_elem?-set_ne, get_elem?_of_lt,
  set, eqb, eqb_iff, All, arith, Bool-cases, inl, inr,
}
use flume_rs.Runtime.Dag.{LogicalNode}
use flume_rs.Runtime.Dag.Counts.{contains, Distinct}
use flume_rs.Runtime.Physical.{
  Slot, SubtaskId, SubtaskAssignment, subtasks_of, subtasks, assign, range,
}
use flume_rs.Runtime.Physical.Counts.{count_if, sum_over, count_if-append}

abbrev pub slot_of : SubtaskAssignment → Slot
slot_of a = (a.task_manager_id, a.slot_index)

-- With enough slots every subtask gets one, in order, and no slot is used more often than it is in
-- the stack.
pub assign_lem :
    (ids : List SubtaskId) (stack : List Slot)
    → length ids ≤ length stack
    → (as' : List SubtaskAssignment) × (assign ids stack ≡ some as')
      × (map (λ a. a.subtask_id) as' ≡ ids)
      × ((p : Slot → Bool) → count_if p (map slot_of as') ≤ count_if p stack)
unfolding assign
assign_lem [] stack h = ([], refl, refl, λ p. omega arith)
assign_lem (id ∷ ids) [] h = absurd (omega (arith, h))
assign_lem (id ∷ ids) ((tm, slot) ∷ stack) h =
    let (rest, run, same, counts) = assign_lem ids stack (omega (arith, h)) in
    (
      record { subtask_id = id; task_manager_id = tm; slot_index = slot } ∷ rest,
      ap
          (λ o. elim o [
            | none ↦ none
            | some r ↦
                some (record { subtask_id = id; task_manager_id = tm; slot_index = slot } ∷ r)
          ])
          run,
      ap (◌∷◌ id) same,
      λ p. omega (arith, counts p),
    )

-- The entry of a list of numbers, 0 out of range.
abbrev or_zero : Option ℕ → ℕ
or_zero none = 0
or_zero (some x) = x

abbrev pub entry : List ℕ → ℕ → ℕ
entry ws v = or_zero (get_elem? ws v)

entry-set_zero :
    (ws : List ℕ) (v : ℕ) → sum_over (λ x. x) (set ws v 0) + entry ws v ≡ sum_over (λ x. x) ws
entry-set_zero [] v = omega arith
entry-set_zero (x ∷ ws) zero = omega arith
entry-set_zero (x ∷ ws) (suc v) = omega (arith, entry-set_zero ws v)

entries-set_zero :
    (ws : List ℕ) (v : ℕ) (vs : List ℕ)
    → contains v vs ≡ false
    → sum_over (entry (set ws v 0)) vs ≡ sum_over (entry ws) vs
entries-set_zero ws v [] h = refl
entries-set_zero ws v (u ∷ us) h =
    let e = ap or_zero (get_elem?-set_ne ws v u 0 (λ p. ground (arith, eqb_iff u v))) in
    omega (arith, e, entries-set_zero ws v us (ground arith))

-- Distinct entries sum up to no more than the whole.
pub sum-Distinct : (vs ws : List ℕ) → Distinct vs → sum_over (entry ws) vs ≤ sum_over (λ x. x) ws
sum-Distinct [] ws d = omega arith
sum-Distinct (v ∷ vs) ws d =
    omega
      (arith, entry-set_zero ws v, entries-set_zero ws v vs d.0, sum-Distinct vs (set ws v 0) d.1)

pub length-range : (start n : ℕ) → length (range start n) ≡ n
length-range start zero = refl
length-range start (suc n) = ap suc (length-range (suc start) n)

pub length-map : {A B : Type 0} (f : A → B) (xs : List A) → length (map f xs) ≡ length xs
length-map f [] = refl
length-map f (x ∷ xs) = ap suc (length-map f xs)

abbrev pub widths : List LogicalNode → List ℕ
widths nodes = map (λ n. n.parallelism) nodes

entry-widths :
    (nodes : List LogicalNode) (v : ℕ) (node : LogicalNode)
    → get_elem? nodes v ≡ some node
    → entry (widths nodes) v ≡ node.parallelism
entry-widths [] v node h = cc
entry-widths (x ∷ nodes) zero node h = ap (λ n. n.parallelism) (some_inj h)
entry-widths (x ∷ nodes) (suc v) node h = entry-widths nodes v node h

length-subtasks_of : (node : LogicalNode) (v : ℕ) → length (subtasks_of node v) ≡ node.parallelism
length-subtasks_of node v =
    length-map _ (range 0 node.parallelism) ∙ length-range 0 node.parallelism

-- The subtask is one of the node.
abbrev pub is_of : ℕ → SubtaskId → Bool
is_of v id = eqb id.node_id v

count-subtasks_of :
    (node : LogicalNode) (v start n : ℕ)
    → count_if (is_of v) (
        map
          (λ i. record { node_id = v; operator_name = node.name; subtask_index = i })
          (range start n))
      ≡ n
count-subtasks_of node v start zero = refl
count-subtasks_of node v start (suc n) =
    ground (arith, eqb_iff v v, count-subtasks_of node v (suc start) n)

-- The subtasks of the nodes in a list: as many as the nodes have, and all of each node.
pub subtasks_lem :
    (nodes : List LogicalNode) (topo : List ℕ)
    → All (λ v. v < length nodes) topo
    → (ids : List SubtaskId) × (subtasks nodes topo ≡ some ids)
      × (length ids ≡ sum_over (entry (widths nodes)) topo)
      × ((v : ℕ) → contains v topo ≡ true → entry (widths nodes) v ≤ count_if (is_of v) ids)
unfolding subtasks
subtasks_lem nodes [] h = ([], refl, refl, λ v e. cc)
subtasks_lem nodes (u ∷ topo) h =
    let (node, at) = get_elem?_of_lt nodes u h.0 in
    let (rest, run, len, counts) = subtasks_lem nodes topo h.1 in
    let here = subtasks_of node u in
    (
      here ++ rest,
      ap
            (λ o. elim o [
              | none ↦ none
              | some n ↦ elim (subtasks nodes topo) [
                | none ↦ none
                | some r ↦ some (subtasks_of n u ++ r)
              ]
            ])
            at
          ∙ ap (λ o. elim o [ none ↦ none | some r ↦ some (subtasks_of node u ++ r) ]) run,
      omega (
        arith,
        length-append here rest,
        length-subtasks_of node u,
        len,
        entry-widths nodes u node at,
      ),
      λ v e. elim (Bool-cases (eqb u v)) [
        | inl q ↦
            let same = (eqb_iff u v).0 q in
            omega (
              arith,
              count_if-append (is_of v) here rest,
              ap (λ x. count_if (is_of x) here) same,
              ap (entry (widths nodes)) same,
              count-subtasks_of node u 0 node.parallelism,
              entry-widths nodes u node at,
            )
        | inr q ↦ omega (arith, count_if-append (is_of v) here rest, counts v (ground arith))
      ],
    )
