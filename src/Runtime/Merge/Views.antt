-- ===== src/Runtime/Merge/Views.antt =====
-- What the output of merge.rs shows of each input, and of the watermarks.
use mathlib.Core.List.{append_assoc}
use flume_rs.Base.{ℕ, ◌≡◌, ◌<◌, refl, List, [], ◌∷◌, ◌++◌, arith}
use flume_rs.Core.Record.{
  Record, StreamElement, rec, watermark, checkpoint_barrier, Either, left, right,
}

abbrev pub Output : Type 0 → Type 0 → Type 0
Output A B = List (StreamElement (Either A B))

module _ {A B : Type 0} where
  -- The records of one input in the output, as they came.
  abbrev pub left_of : Record (Either A B) → List (Record A)
  left_of r = elim r.value [
    | left a ↦ record { value = a; timestamp = r.timestamp; key = r.key } ∷ []
    | right b ↦ []
  ]

  abbrev pub right_of : Record (Either A B) → List (Record B)
  right_of r = elim r.value [
    | left a ↦ []
    | right b ↦ record { value = b; timestamp = r.timestamp; key = r.key } ∷ []
  ]

  abbrev pub lefts : Output A B → List (Record A)
  lefts [] = []
  lefts (rec r ∷ xs) = left_of r ++ lefts xs
  lefts (watermark w ∷ xs) = lefts xs
  lefts (checkpoint_barrier b ∷ xs) = lefts xs

  abbrev pub rights : Output A B → List (Record B)
  rights [] = []
  rights (rec r ∷ xs) = right_of r ++ rights xs
  rights (watermark w ∷ xs) = rights xs
  rights (checkpoint_barrier b ∷ xs) = rights xs

  pub lefts-append : (xs ys : Output A B) → lefts (xs ++ ys) ≡ lefts xs ++ lefts ys
  lefts-append [] ys = refl
  lefts-append (rec r ∷ xs) ys =
      ground (arith, lefts-append xs ys, append_assoc (left_of r) (lefts xs) (lefts ys))
  lefts-append (watermark w ∷ xs) ys = lefts-append xs ys
  lefts-append (checkpoint_barrier b ∷ xs) ys = lefts-append xs ys

  pub rights-append : (xs ys : Output A B) → rights (xs ++ ys) ≡ rights xs ++ rights ys
  rights-append [] ys = refl
  rights-append (rec r ∷ xs) ys =
      ground (arith, rights-append xs ys, append_assoc (right_of r) (rights xs) (rights ys))
  rights-append (watermark w ∷ xs) ys = rights-append xs ys
  rights-append (checkpoint_barrier b ∷ xs) ys = rights-append xs ys

  -- The watermarks of the output rise strictly, from above `lo` up to `hi`.
  abbrev pub Rises : ℕ → Output A B → ℕ → Type 0
  Rises lo [] hi = lo ≡ hi
  Rises lo (rec r ∷ xs) hi = Rises lo xs hi
  Rises lo (watermark w ∷ xs) hi = (lo < w.timestamp) × Rises w.timestamp xs hi
  Rises lo (checkpoint_barrier b ∷ xs) hi = Rises lo xs hi

  pub Rises-append :
      (lo mid hi : ℕ) (xs ys : Output A B)
      → Rises lo xs mid
      → Rises mid ys hi
      → Rises lo (xs ++ ys) hi
  Rises-append lo mid hi [] ys h k = rw h k
  Rises-append lo mid hi (rec r ∷ xs) ys h k = Rises-append lo mid hi xs ys h k
  Rises-append lo mid hi (watermark w ∷ xs) ys h k =
      (h.0, Rises-append w.timestamp mid hi xs ys h.1 k)
  Rises-append lo mid hi (checkpoint_barrier b ∷ xs) ys h k = Rises-append lo mid hi xs ys h k

abbrev pub records : {T : Type 0} → List (StreamElement T) → List (Record T)
records [] = []
records (rec r ∷ xs) = r ∷ records xs
records (watermark w ∷ xs) = records xs
records (checkpoint_barrier b ∷ xs) = records xs
