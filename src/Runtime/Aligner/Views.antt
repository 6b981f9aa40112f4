-- ===== src/Runtime/Aligner/Views.antt =====
-- What the inputs of aligner.rs have still to give.
use flume_rs.Base.{
  ℕ, zero, suc, ◌≡◌, ◌≢◌, ◌≤◌, ◌<◌, refl, ap, ◌∙◌, inl, inr, List, [], ◌∷◌, ◌++◌, Option, none,
  some, Bool, true, false, length, get_elem?, set, all, replicate, arith, some_inj, ◌⊎◌,
}
use flume_rs.Core.Record.{StreamElement, rec, watermark, checkpoint_barrier}
use flume_rs.Runtime.Aligner.{
  AlignerOutput, element, barrier_aligned, Polled, gives, closed, waiting, BarrierAligner, is_true,
}

module _ {A : Type 0} where
  abbrev pub at : List (List A) → ℕ → List A
  at [] i = []
  at (x ∷ xs) zero = x
  at (x ∷ xs) (suc i) = at xs i

  pub at-get_elem? :
      (xs : List (List A)) (i : ℕ) {x : List A} → get_elem? xs i ≡ some x → at xs i ≡ x
  at-get_elem? [] i h = cc
  at-get_elem? (y ∷ xs) zero h = some_inj h
  at-get_elem? (y ∷ xs) (suc i) h = at-get_elem? xs i h

  pub at_out : (xs : List (List A)) (i : ℕ) → length xs ≤ i → at xs i ≡ []
  at_out [] i h = refl
  at_out (y ∷ xs) zero h = elim h [ ]
  at_out (y ∷ xs) (suc i) h = at_out xs i (omega arith)

  pub at-set_self :
      (xs : List (List A)) (i : ℕ) (v : List A) → i < length xs → at (set xs i v) i ≡ v
  at-set_self [] i v h = elim h [ ]
  at-set_self (y ∷ xs) zero v h = refl
  at-set_self (y ∷ xs) (suc i) v h = at-set_self xs i v (omega arith)

  pub at-set_ne : (xs : List (List A)) (i j : ℕ) (v : List A) → i ≢ j → at (set xs i v) j ≡ at xs j
  at-set_ne [] i j v h = refl
  at-set_ne (y ∷ xs) zero zero v h = absurd (h refl)
  at-set_ne (y ∷ xs) zero (suc j) v h = refl
  at-set_ne (y ∷ xs) (suc i) zero v h = refl
  at-set_ne (y ∷ xs) (suc i) (suc j) v h = at-set_ne xs i j v (λ e. h (ap suc e))

pub front_cases :
    {A : Type 0} (o : Option (List A))
    → (o ≡ none) ⊎ (o ≡ some []) ⊎ ((x : A) × (xs : List A) × (o ≡ some (x ∷ xs)))
front_cases none = inl refl
front_cases (some []) = inr (inl refl)
front_cases (some (x ∷ xs)) = inr (inr (x, xs, refl))

pub get_elem?-none : {A : Type 0} (xs : List A) (i : ℕ) → get_elem? xs i ≡ none → length xs ≤ i
get_elem?-none [] i h = omega arith
get_elem?-none (y ∷ xs) zero h = cc
get_elem?-none (y ∷ xs) (suc i) h = omega (arith, get_elem?-none xs i h)

pub none_received : (n : ℕ) → is_true (get_elem? (replicate n false) 0) ≡ false
none_received zero = refl
none_received (suc n) = refl

pub one_received :
    (bs : List Bool) → length bs ≡ 1 → all (λ r. r) bs ≡ false → is_true (get_elem? bs 0) ≡ false
one_received [] h k = refl
one_received (true ∷ []) h k = k
one_received (false ∷ []) h k = refl
one_received (b ∷ c ∷ bs) h k = absurd (omega arith)

module _ {T : Type 0} where
  -- The elements of an input without its barriers.
  abbrev pub data_of : List (StreamElement T) → List (StreamElement T)
  data_of [] = []
  data_of (rec r ∷ xs) = rec r ∷ data_of xs
  data_of (watermark w ∷ xs) = watermark w ∷ data_of xs
  data_of (checkpoint_barrier b ∷ xs) = data_of xs

  -- The data that the input `i` has still to give: first its buffer, then what arrives.
  abbrev pub view : ℕ → BarrierAligner T → List (StreamElement T)
  view i a = at a.blocked_buffers i ++ data_of (at a.inputs i)

  abbrev pub taken : AlignerOutput T → List (StreamElement T)
  taken (element x) = x ∷ []
  taken (barrier_aligned b) = []

  abbrev pub Fits : BarrierAligner T → Type 0
  Fits a =
      (length a.blocked_buffers ≡ length a.inputs)
      × (length a.barrier_received ≡ length a.inputs)
      × (length a.inputs ≡ 1 → is_true (get_elem? a.barrier_received 0) ≡ false)

  -- What an input that may deliver at once has buffered was given out before.
  abbrev pub IsValid : BarrierAligner T → Type 0
  IsValid a =
      Fits a
      × ((i : ℕ)
          → i < a.drain_index
          → is_true (get_elem? a.barrier_received i) ≡ false
          → at a.blocked_buffers i ≡ [])

  abbrev pub IsDrained : BarrierAligner T → Type 0
  IsDrained a =
      Fits a
      × ((i : ℕ) → is_true (get_elem? a.barrier_received i) ≡ false → at a.blocked_buffers i ≡ [])

  abbrev pub Same : BarrierAligner T → BarrierAligner T → Type 0
  Same a a' = (j : ℕ) → view j a ≡ view j a'

  -- One input gives the data `xs` from its front, and the others give nothing.
  abbrev pub Takes : BarrierAligner T → List (StreamElement T) → BarrierAligner T → Type 0
  Takes a xs a' = (i : ℕ) × (view i a ≡ xs ++ view i a') × ((j : ℕ) → i ≢ j → view j a ≡ view j a')

  -- A step either gives an output or leaves an aligner that is drained.
  abbrev pub Steps : BarrierAligner T → Option (List (StreamElement T)) → BarrierAligner T → Type 0
  Steps a none a' = IsDrained a' × Same a a'
  Steps a (some xs) a' = IsValid a' × Takes a xs a'

  abbrev pub Ends : BarrierAligner T → Polled T → BarrierAligner T → Type 0
  Ends a (gives o) a' = IsValid a' × Takes a (taken o) a'
  Ends a closed a' = IsValid a' × Same a a'
  Ends a waiting a' = IsValid a' × Same a a'

  Same-Takes :
      (a b c : BarrierAligner T) (xs : List (StreamElement T))
      → Same a b
      → Takes b xs c
      → Takes a xs c
  Same-Takes a b c xs s t = (t.0, s t.0 ∙ t.1, λ j ne. s j ∙ t.2 j ne)

  pub Same-Ends : (a b c : BarrierAligner T) (p : Polled T) → Same a b → Ends b p c → Ends a p c
  Same-Ends a b c (gives o) s e = (e.0, Same-Takes a b c (taken o) s e.1)
  Same-Ends a b c closed s e = (e.0, λ j. s j ∙ e.1 j)
  Same-Ends a b c waiting s e = (e.0, λ j. s j ∙ e.1 j)

  pub drained-IsValid : (a : BarrierAligner T) → IsDrained a → IsValid a
  drained-IsValid a d = (d.0, λ i _ h. d.1 i h)

  abbrev pub listed : Option (StreamElement T) → Option (List (StreamElement T))
  listed none = none
  listed (some x) = some (x ∷ [])

  abbrev pub listed_out : Option (AlignerOutput T) → Option (List (StreamElement T))
  listed_out none = none
  listed_out (some o) = some (taken o)

  pub Same-Steps :
      (a b c : BarrierAligner T) (o : Option (List (StreamElement T)))
      → Same a b
      → Steps b o c
      → Steps a o c
  Same-Steps a b c none s e = (e.0, λ j. s j ∙ e.1 j)
  Same-Steps a b c (some xs) s e = (e.0, Same-Takes a b c xs s e.1)
