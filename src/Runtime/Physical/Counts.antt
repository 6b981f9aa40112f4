-- ===== src/Runtime/Physical/Counts.antt =====
-- The slots of crates/flume-runtime/src/physical.rs, counted through sorting and interleaving.
use mathlib.Core.List.{reverse_aux}
use flume_rs.Base.{
  ℕ, zero, suc, ◌+◌, ◌<◌, ◌≡◌, refl, ap, ◌∙◌, List, [], ◌∷◌, ◌++◌, map, flat_map, Bool, true, leb,
  length, if◌then◌else◌, arith,
}
use flume_rs.Runtime.Dag.{returns}
use flume_rs.Runtime.Physical.{
  Slot, SlotOffer, SchedulingStrategy, available, insert_sorted, sort_by, free_slots, pass,
  interleave, total_length, build_slot_queue,
}

abbrev pub count_if : {A : Type 0} → (A → Bool) → List A → ℕ
count_if p [] = 0
count_if p (x ∷ xs) = (if p x then 1 else 0) + count_if p xs

abbrev pub sum_over : {A : Type 0} → (A → ℕ) → List A → ℕ
sum_over w [] = 0
sum_over w (x ∷ xs) = w x + sum_over w xs

pub count_if-append :
    {A : Type 0} (p : A → Bool) (xs ys : List A)
    → count_if p (xs ++ ys) ≡ count_if p xs + count_if p ys
count_if-append p [] ys = omega arith
count_if-append p (x ∷ xs) ys = ground (arith, count_if-append p xs ys)

pub count_if-reverse_aux :
    {A : Type 0} (p : A → Bool) (xs ys : List A)
    → count_if p (reverse_aux xs ys) ≡ count_if p xs + count_if p ys
count_if-reverse_aux p [] ys = omega arith
count_if-reverse_aux p (x ∷ xs) ys = ground (arith, count_if-reverse_aux p xs (x ∷ ys))

pub count_if-all : {A : Type 0} (xs : List A) → count_if (λ x. true) xs ≡ length xs
count_if-all [] = refl
count_if-all (x ∷ xs) = omega (arith, count_if-all xs)

pub count_if-flat_map :
    {A B : Type 0} (p : B → Bool) (f : A → List B) (xs : List A)
    → count_if p (flat_map f xs) ≡ sum_over (λ x. count_if p (f x)) xs
count_if-flat_map p f [] = refl
count_if-flat_map p f (x ∷ xs) =
    omega (arith, count_if-append p (f x) (flat_map f xs), count_if-flat_map p f xs)

module _ {A : Type 0} (before : A → A → Bool) (w : A → ℕ) where
  sum_over-insert_sorted :
      (x : A) (xs : List A) → sum_over w (insert_sorted before x xs) ≡ w x + sum_over w xs
  unfolding insert_sorted
  sum_over-insert_sorted x [] = refl
  sum_over-insert_sorted x (y ∷ ys) = ground (arith, sum_over-insert_sorted x ys)

  sum_over-sort_by : (xs : List A) → sum_over w (sort_by before xs) ≡ sum_over w xs
  unfolding sort_by
  sum_over-sort_by [] = refl
  sum_over-sort_by (x ∷ xs) =
      omega (arith, sum_over-insert_sorted x (sort_by before xs), sum_over-sort_by xs)

-- The slots of all queues that satisfy `p`.
abbrev total : (Slot → Bool) → List (List Slot) → ℕ
total p [] = 0
total p (q ∷ qs) = count_if p q + total p qs

total-map :
    (p : Slot → Bool) (os : List SlotOffer)
    → total p (map free_slots os) ≡ sum_over (λ o. count_if p (free_slots o)) os
total-map p [] = refl
total-map p (o ∷ os) = omega (arith, total-map p os)

total_length-all : (qs : List (List Slot)) → total (λ s. true) qs ≡ total_length qs
total_length-all [] = refl
total_length-all (q ∷ qs) = omega (arith, count_if-all q, total_length-all qs)

total-pass :
    (p : Slot → Bool) (qs : List (List Slot))
    → count_if p (pass qs).0 + total p (pass qs).1 ≡ total p qs
total-pass p [] = refl
total-pass p ([] ∷ qs) = omega (arith, total-pass p qs)
total-pass p ((s ∷ q) ∷ qs) = ground (arith, total-pass p qs)

-- A pass that finds no slot leaves empty queues only.
empty-pass : (p : Slot → Bool) (qs : List (List Slot)) → (pass qs).0 ≡ [] → total p qs ≡ 0
empty-pass p [] h = refl
empty-pass p ([] ∷ qs) h = omega (arith, empty-pass p qs h)
empty-pass p ((s ∷ q) ∷ qs) h = cc

-- The loop that interleaves ends on a unit of fuel for each slot and one more, and neither loses
-- nor repeats a slot.
abbrev Interleaved : ℕ → List (List Slot) → List Slot → Type 0
Interleaved fuel qs result =
    (r : List Slot) × (interleave fuel qs result ≡ returns r)
    × ((p : Slot → Bool) → count_if p r ≡ count_if p result + total p qs)

Interleaved-step :
    (fuel : ℕ) (qs : List (List Slot)) (result heads : List Slot)
    → (pass qs).0 ≡ heads
    → total_length qs < suc fuel
    → ((result' : List Slot)
        → total_length (pass qs).1 < fuel
        → Interleaved fuel (pass qs).1 result')
    → Interleaved (suc fuel) qs result
unfolding interleave
Interleaved-step fuel qs result [] e b ih = (
  result,
  ap
      (λ o. elim o [
        | [] ↦ returns result
        | s ∷ heads ↦ interleave fuel (pass qs).1 (result ++ s ∷ heads)
      ])
      e,
  λ p. omega (arith, empty-pass p qs e),
)
Interleaved-step fuel qs result (s ∷ heads) e b ih =
    let less = shrinks in
    let (r, run, counts) = ih (result ++ s ∷ heads) less in
    (
      r,
      ap
            (λ o. elim o [
              | [] ↦ returns result
              | s' ∷ heads' ↦ interleave fuel (pass qs).1 (result ++ s' ∷ heads')
            ])
            e
          ∙ run,
      λ p. omega (
        arith,
        counts p,
        count_if-append p result (s ∷ heads),
        total-pass p qs,
        ap (count_if p) e,
      ),
    )
  where
    shrinks : total_length (pass qs).1 < fuel
    shrinks = omega (
      arith,
      b,
      total-pass (λ x. true) qs,
      ap (count_if (λ x. true)) e,
      total_length-all qs,
      total_length-all (pass qs).1,
    )

interleave_lem :
    (fuel : ℕ) (qs : List (List Slot)) (result : List Slot)
    → total_length qs < fuel
    → Interleaved fuel qs result
interleave_lem zero qs result b = elim b [ ]
interleave_lem (suc fuel) qs result b =
    Interleaved-step fuel qs result (pass qs).0 refl b
      (λ result' b'. interleave_lem fuel (pass qs).1 result' b')

-- The queue of slots holds the free slots of the offers, each as often as it is offered.
pub build_slot_queue_lem :
    (slots : List SlotOffer) (strategy : SchedulingStrategy)
    → (r : List Slot) × (build_slot_queue slots strategy ≡ returns r)
      × ((p : Slot → Bool) → count_if p r ≡ count_if p (flat_map free_slots slots))
unfolding build_slot_queue
build_slot_queue_lem slots SchedulingStrategy.spread =
    let sorted = sort_by (λ a b. leb (available b) (available a)) slots in
    let (r, run, counts) =
      interleave_lem (suc (total_length (map free_slots sorted))) (map free_slots sorted) []
        (omega arith) in
    (
      r,
      run,
      λ p. omega (
        arith,
        counts p,
        total-map p sorted,
        sum_over-sort_by (λ a b. leb (available b) (available a)) (λ o. count_if p (free_slots o))
            slots,
        count_if-flat_map p free_slots slots,
      ),
    )
build_slot_queue_lem slots SchedulingStrategy.pack =
    let sorted = sort_by (λ a b. leb (available a) (available b)) slots in
    (
      flat_map free_slots sorted,
      refl,
      λ p. omega (
        arith,
        count_if-flat_map p free_slots sorted,
        sum_over-sort_by (λ a b. leb (available a) (available b)) (λ o. count_if p (free_slots o))
            slots,
        count_if-flat_map p free_slots slots,
      ),
    )
