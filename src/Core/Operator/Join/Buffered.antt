-- ===== src/Core/Operator/Join/Buffered.antt =====
-- What a buffer of join.rs holds after some records, told from the records.
use mathlib.Core.List.{append-nil, append_assoc}
use flume_rs.Base.{◌≡◌, refl, ap, ap₂, sym, ◌∙◌, List, [], ◌∷◌, ◌++◌, Option, none, some, flat_map}
use flume_rs.Core.Time.{EventTimestamp}
use flume_rs.Core.Record.{Record, Either, left, right}
use flume_rs.Core.Operator.Keyed.{or_create}
use flume_rs.Core.Operator.Join.{
  WindowJoinState, CogroupState, empty_join, empty_cogroup, push_join, push_cogroup,
}

module _ {L R : Type 0} where
  -- The value of a record, if it is one of the left side, or of the right side.
  abbrev pub left_of : Either L R → List L
  left_of (left v) = v ∷ []
  left_of (right v) = []

  abbrev pub right_of : Either L R → List R
  right_of (left v) = []
  right_of (right v) = v ∷ []

  -- The same with its timestamp.
  abbrev pub left_at : EventTimestamp → Either L R → List (L × EventTimestamp)
  left_at t (left v) = (v, t) ∷ []
  left_at t (right v) = []

  abbrev pub right_at : EventTimestamp → Either L R → List (R × EventTimestamp)
  right_at t (left v) = []
  right_at t (right v) = (v, t) ∷ []

  abbrev pub lefts_before : Option (WindowJoinState L R) → List (L × EventTimestamp)
  lefts_before none = []
  lefts_before (some s) = s.left

  abbrev pub rights_before : Option (WindowJoinState L R) → List (R × EventTimestamp)
  rights_before none = []
  rights_before (some s) = s.right

  -- The buffer of the join after the records that belong there: what it held, then the values of
  -- either side with their timestamps. No records make no buffer.
  abbrev pub joined :
      Option (WindowJoinState L R) → List (Record (Either L R)) → Option (WindowJoinState L R)
  joined o [] = o
  joined o (r ∷ rs) = some (record {
    left = lefts_before o ++ flat_map (λ x. left_at x.timestamp x.value) (r ∷ rs);
    right = rights_before o ++ flat_map (λ x. right_at x.timestamp x.value) (r ∷ rs);
  })

  abbrev pub left_group : Option (CogroupState L R) → List L
  left_group none = []
  left_group (some s) = s.left

  abbrev pub right_group : Option (CogroupState L R) → List R
  right_group none = []
  right_group (some s) = s.right

  -- The same for the cogroup, which keeps no timestamps.
  abbrev pub grouped :
      Option (CogroupState L R) → List (Record (Either L R)) → Option (CogroupState L R)
  grouped o [] = o
  grouped o (r ∷ rs) = some (record {
    left = left_group o ++ flat_map (λ x. left_of x.value) (r ∷ rs);
    right = right_group o ++ flat_map (λ x. right_of x.value) (r ∷ rs);
  })

module _ {S X : Type 0} (default : S) (push : X → S → S) where
  -- The buffer of an entry after pushes, on top of what there was.
  abbrev pub pushed_from : Option S → List X → Option S
  pushed_from o [] = o
  pushed_from o (x ∷ xs) = pushed_from (some (push x (or_create o default))) xs

  -- A buffer of two lists, to which a push appends.
  module _ {A B : Type 0} (two : List A → List B → S) (first : S → List A) (second : S → List B)
      (of_two : (s : S) → s ≡ two (first s) (second s))
      (first_two : (ls : List A) (rs : List B) → first (two ls rs) ≡ ls)
      (second_two : (ls : List A) (rs : List B) → second (two ls rs) ≡ rs) (to_first : X → List A)
      (to_second : X → List B)
      (push_two : (x : X) (s : S)
        → push x s ≡ two (first s ++ to_first x) (second s ++ to_second x)) where
    pushed_from_two :
        (s : S) (xs : List X)
        → pushed_from (some s) xs
          ≡ some (two (first s ++ flat_map to_first xs) (second s ++ flat_map to_second xs))
    pushed_from_two s [] =
        ap some (of_two s ∙ ap₂ two (sym (append-nil (first s))) (sym (append-nil (second s))))
    pushed_from_two s (x ∷ xs) =
        pushed_from_two (push x s) xs
        ∙ ap some (
            ap₂ two
              (ap (λ l. l ++ flat_map to_first xs) (ap first (push_two x s) ∙ first_two _ _)
                ∙ append_assoc (first s) (to_first x) (flat_map to_first xs))
              (ap (λ l. l ++ flat_map to_second xs) (ap second (push_two x s) ∙ second_two _ _)
                ∙ append_assoc (second s) (to_second x) (flat_map to_second xs)))

module _ {L R : Type 0} where
  push_join_lem :
      (x : Either L R) (t : EventTimestamp) (s : WindowJoinState L R)
      → push_join x t s ≡ record { left = s.left ++ left_at t x; right = s.right ++ right_at t x }
  push_join_lem (left v) t s =
      ap (λ l. record { left = s.left ++ (v, t) ∷ []; right = l }) (sym (append-nil s.right))
  push_join_lem (right v) t s =
      ap (λ l. record { left = l; right = s.right ++ (v, t) ∷ [] }) (sym (append-nil s.left))

  push_cogroup_lem :
      (x : Either L R) (s : CogroupState L R)
      → push_cogroup x s ≡ record { left = s.left ++ left_of x; right = s.right ++ right_of x }
  push_cogroup_lem (left v) s =
      ap (λ l. record { left = s.left ++ v ∷ []; right = l }) (sym (append-nil s.right))
  push_cogroup_lem (right v) s =
      ap (λ l. record { left = l; right = s.right ++ v ∷ [] }) (sym (append-nil s.left))

  join_of : List (L × EventTimestamp) → List (R × EventTimestamp) → WindowJoinState L R
  join_of ls rs = record { left = ls; right = rs }

  group_of : List L → List R → CogroupState L R
  group_of ls rs = record { left = ls; right = rs }

  pushed_onto_join :
      (s : WindowJoinState L R) (rs : List (Record (Either L R)))
      → pushed_from empty_join (λ r. push_join r.value r.timestamp) (some s) rs
        ≡ some (record {
          left = s.left ++ flat_map (λ x. left_at x.timestamp x.value) rs;
          right = s.right ++ flat_map (λ x. right_at x.timestamp x.value) rs;
        })
  unfolding join_of
  pushed_onto_join =
      pushed_from_two empty_join (λ r. push_join r.value r.timestamp) join_of (λ s. s.left)
        (λ s. s.right) (λ s. refl) (λ ls rs. refl) (λ ls rs. refl)
        (λ x. left_at x.timestamp x.value) (λ x. right_at x.timestamp x.value)
        (λ x. push_join_lem x.value x.timestamp)

  pushed_onto_group :
      (s : CogroupState L R) (rs : List (Record (Either L R)))
      → pushed_from empty_cogroup (λ r. push_cogroup r.value) (some s) rs
        ≡ some (record {
          left = s.left ++ flat_map (λ x. left_of x.value) rs;
          right = s.right ++ flat_map (λ x. right_of x.value) rs;
        })
  unfolding group_of
  pushed_onto_group =
      pushed_from_two empty_cogroup (λ r. push_cogroup r.value) group_of (λ s. s.left)
        (λ s. s.right) (λ s. refl) (λ ls rs. refl) (λ ls rs. refl) (λ x. left_of x.value)
        (λ x. right_of x.value) (λ x. push_cogroup_lem x.value)

  pub pushed_from-joined :
      (o : Option (WindowJoinState L R)) (rs : List (Record (Either L R)))
      → pushed_from empty_join (λ r. push_join r.value r.timestamp) o rs ≡ joined o rs
  pushed_from-joined o [] = refl
  pushed_from-joined none (r ∷ rs) = pushed_onto_join empty_join (r ∷ rs)
  pushed_from-joined (some s) (r ∷ rs) = pushed_onto_join s (r ∷ rs)

  pub pushed_from-grouped :
      (o : Option (CogroupState L R)) (rs : List (Record (Either L R)))
      → pushed_from empty_cogroup (λ r. push_cogroup r.value) o rs ≡ grouped o rs
  pushed_from-grouped o [] = refl
  pushed_from-grouped none (r ∷ rs) = pushed_onto_group empty_cogroup (r ∷ rs)
  pushed_from-grouped (some s) (r ∷ rs) = pushed_onto_group s (r ∷ rs)
