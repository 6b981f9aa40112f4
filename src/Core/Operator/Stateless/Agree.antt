-- ===== src/Core/Operator/Stateless/Agree.antt =====
-- The three operators that work record by record, map.rs, filter.rs and flat_map.rs, compared.
use flume_rs.Base.{
  ◌≡◌, refl, ap, sym, ◌∙◌, All, All-map_of, List, [], ◌∷◌, Bool, none, if◌then◌else◌, Bool-cases,
  inl, inr,
}
use flume_rs.Core.Record.{Record, new}
use flume_rs.Core.Result.{for_each, for_each_ext, paired, ended}
use flume_rs.Core.Collector.{Collector}
use flume_rs.Core.Operator.Stateless.{map_process, flat_map_process, filter_process}

abbrev pub one : {J In Out : Type 0} → (In → J → Out × J) → In → J → List Out × J
one f v j = let (o, j') = f v j in (o ∷ [], j')

abbrev pub kept : {J T : Type 0} → (T → J → Bool × J) → T → J → List T × J
kept p v j = let (keep, j') = p v j in (if keep then v ∷ [] else [], j')

module _ {J C Out : Type 0} (out : Collector C Out) where
  filter_one :
      (p : Out → J → Bool × J) (r : Record Out) (s : J × C)
      → r.key ≡ none
      → filter_process out p r s ≡ flat_map_process out (kept p) r s
  unfolding filter_process flat_map_process for_each
  filter_one p r (j, c) h = elim (Bool-cases (p r.value j).0) [
    | inl e ↦ rw e (
        ap
          (λ k.
            paired (p r.value j).1
              (out.collect (record { value = r.value; timestamp = r.timestamp; key = k }) c))
          h
        ∙ ap (paired (p r.value j).1) (sym (ended (out.collect (new r.value r.timestamp) c))))
    | inr e ↦ rw e refl
  ]

module _ {J C In Out : Type 0} (out : Collector C Out) where
  map_one :
      (f : In → J → Out × J) (r : Record In) (s : J × C)
      → r.key ≡ none
      → map_process out f r s ≡ flat_map_process out (one f) r s
  unfolding map_process flat_map_process for_each
  map_one f r (j, c) h =
      let (v, j') = f r.value j in
      ap (λ k. paired j' (out.collect (record { value = v; timestamp = r.timestamp; key = k }) c)) h
      ∙ ap (paired j') (sym (ended (out.collect (new v r.timestamp) c)))

  -- On a record without a key, the map operator does what the flat map operator does with a function
  -- that returns one output, and the filter operator what the flat map operator does with one that
  -- returns the value or nothing, for every collector and whatever state the function keeps; and so
  -- they do for a list of such records, up to the first failure.
  pub flat_map_covers :
      (f : In → J → Out × J) (p : Out → J → Bool × J) (rs : List (Record In))
      (qs : List (Record Out)) (s : J × C)
      → All (λ r. r.key ≡ none) rs
      → All (λ r. r.key ≡ none) qs
      → (for_each (map_process out f) rs s ≡ for_each (flat_map_process out (one f)) rs s)
        × (for_each (filter_process out p) qs s ≡ for_each (flat_map_process out (kept p)) qs s)
  flat_map_covers f p rs qs s h k = (
    for_each_ext (map_process out f) (flat_map_process out (one f)) rs s
        (All-map_of _ _ rs (λ r e t. map_one f r t e) h),
    for_each_ext (filter_process out p) (flat_map_process out (kept p)) qs s
        (All-map_of _ _ qs (λ r e t. filter_one out p r t e) k),
  )
