-- ===== src/Core/Result.antt =====
-- crates/flume-core/src/error.rs. The payload of an error, a message or a boxed error of another
-- crate, is left out. A call may also panic; the unwinding passes every caller up to the task's
-- join handle. `Run S A` is a method on `&mut S` that returns `FlumeResult<A>`: what it did to the
-- state before an error or a panic stays done.
use mathlib.Core.Path.{fun_ext}
use flume_rs.Base.{
  ◌≡◌, refl, sym, ap, ◌∙◌, List, [], ◌∷◌, ◌++◌, map, flat_map, Option, none, some, Bool, true,
  false, All, arith,
}

pub data FlumeError : Type 0 where
  source sink operator serialization state checkpoint channel_closed : FlumeError
  config execution network io : FlumeError

pub data FlumeResult {ℓ} (A : Type ℓ) : Type ℓ where
  ok : A → FlumeResult A
  err : FlumeError → FlumeResult A
  panic : FlumeResult A

abbrev pub Run {ℓ κ} : Type ℓ → Type κ → Type (ℓ ⊔ κ)
Run S A = S → FlumeResult A × S

module _ {ℓ} {S : Type ℓ} where
  abbrev pub return {κ} : {A : Type κ} → A → Run S A
  return a s = (ok a, s)

  -- The `?` operator: an error ends the run, in the state where it arose.
  abbrev pub and_then {κ μ} :
      {A : Type κ} {B : Type μ} → FlumeResult A × S → (A → Run S B) → FlumeResult B × S
  and_then (ok a, s) f = f a s
  and_then (err e, s) f = (err e, s)
  and_then (panic, s) f = (panic, s)

  infixl 5 ◌>>=◌ ◌>>◌
  abbrev pub ◌>>=◌ {κ μ} : {A : Type κ} {B : Type μ} → Run S A → (A → Run S B) → Run S B
  ◌>>=◌ m f s = and_then (m s) f

  abbrev pub ◌>>◌ {κ μ} : {A : Type κ} {B : Type μ} → Run S A → Run S B → Run S B
  m >> k = m >>= λ _. k

  -- A loop over a list whose body may fail.
  unfoldable pub for_each {κ} : {A : Type κ} → (A → Run S (Unit {0})) → List A → Run S (Unit {0})
  for_each body [] = return tt
  for_each body (x ∷ xs) = body x >> for_each body xs

  and_then_assoc {κ μ ν} :
      {A : Type κ} {B : Type μ} {C : Type ν} (r : FlumeResult A × S) (f : A → Run S B)
      (g : B → Run S C)
      → and_then (and_then r f) g ≡ and_then r (λ a. f a >>= g)
  and_then_assoc (ok a, s) f g = refl
  and_then_assoc (err e, s) f g = refl
  and_then_assoc (panic, s) f g = refl

  pub for_each-append {κ} :
      {A : Type κ} (body : A → Run S (Unit {0})) (xs ys : List A) (s : S)
      → for_each body (xs ++ ys) s ≡ (for_each body xs >> for_each body ys) s
  unfolding for_each
  for_each-append body [] ys s = refl
  for_each-append body (x ∷ xs) ys s =
      ap (λ (k : Run S (Unit {0})). and_then (body x s) (λ _. k))
        (fun_ext (for_each-append body xs ys))
      ∙ sym (and_then_assoc (body x s) (λ _. for_each body xs) (λ _. for_each body ys))

  -- A loop in a loop is one loop over the flat list.
  pub for_each-map {κ μ} :
      {A : Type κ} {B : Type μ} (body : B → Run S (Unit {0})) (g : A → B) (xs : List A) (s : S)
      → for_each (λ x. body (g x)) xs s ≡ for_each body (map g xs) s
  unfolding for_each
  for_each-map body g [] s = refl
  for_each-map body g (x ∷ xs) s =
      ap (λ (k : Run S (Unit {0})). and_then (body (g x) s) (λ _. k))
        (fun_ext (for_each-map body g xs))

  pub for_each-flat_map {κ μ} :
      {A : Type κ} {B : Type μ} (body : B → Run S (Unit {0})) (loop : A → Run S (Unit {0}))
      (g : A → List B) (xs : List A) (s : S)
      → ((x : A) (t : S) → loop x t ≡ for_each body (g x) t)
      → for_each loop xs s ≡ for_each body (flat_map g xs) s
  unfolding for_each
  for_each-flat_map body loop g [] s h = refl
  for_each-flat_map body loop g (x ∷ xs) s h =
      (λ i. and_then (h x s i) (λ _ t. for_each-flat_map body loop g xs t h i))
      ∙ sym (for_each-append body (g x) (flat_map g xs) s)

-- A panic of a total computation is `none` there.
abbrev pub or_panic {ℓ κ} : {S : Type ℓ} {A : Type κ} → Option A → Run S A
or_panic none s = (panic, s)
or_panic (some a) s = (ok a, s)

-- A method on two objects that works on one of them.
module _ {ℓ κ} {S : Type ℓ} {C : Type κ} where
  abbrev pub paired {μ} : {A : Type μ} → S → FlumeResult A × C → FlumeResult A × (S × C)
  paired s (r, c) = (r, (s, c))

  abbrev pub on_second {μ} : {A : Type μ} → Run C A → Run (S × C) A
  on_second m sc = paired sc.0 (m sc.1)

  abbrev pub on_first : (S → S) → Run (S × C) (Unit {0})
  on_first f sc = (ok tt, (f sc.0, sc.1))

-- Whether a run ended well.
abbrev pub is_ok {ℓ κ} : {A : Type ℓ} {S : Type κ} → FlumeResult A × S → Bool
is_ok (ok a, s) = true
is_ok (err e, s) = false
is_ok (panic, s) = false

module _ {ℓ} {S : Type ℓ} where
  pub ended : (r : FlumeResult (Unit {0}) × S) → and_then r (λ _. return tt) ≡ r
  ended (ok u, s) = refl
  ended (err e, s) = refl
  ended (panic, s) = refl

  pub >>-cong :
      (m m' k k' : Run S (Unit {0})) (s : S)
      → m s ≡ m' s
      → ((t : S) → k t ≡ k' t)
      → (m >> k) s ≡ (m' >> k') s
  >>-cong m m' k k' s p q = λ i. and_then (p i) (λ _ t. q t i)

module _ {ℓ κ} {S : Type ℓ} {C : Type κ} where
  -- A run on both objects ends as a run on the second alone does, and a good end leaves the first
  -- as `s`.
  abbrev pub EndsAs :
      FlumeResult (Unit {0}) × (S × C) → FlumeResult (Unit {0}) × C → S → Type (ℓ ⊔ κ)
  EndsAs t u s = (t.0 ≡ u.0) × (t.1.1 ≡ u.1) × (t.0 ≡ ok tt → t.1.0 ≡ s)

  -- Work on the second object, then a change of the first, then more work on the second.
  pub phases-EndsAs :
      (r : FlumeResult (Unit {0}) × C) (f : S → S) (k : Run C (Unit {0})) (s : S)
      → EndsAs (and_then (paired s r) (λ _. on_first f >> on_second k)) (and_then r (λ _. k)) (f s)
  phases-EndsAs (ok a, c) f k s = (refl, refl, λ _. refl)
  phases-EndsAs (err e, c) f k s = (refl, refl, λ h. cc)
  phases-EndsAs (panic, c) f k s = (refl, refl, λ h. cc)

pub for_each_ext {ℓ κ} :
    {S : Type ℓ} {A : Type κ} (f g : A → Run S (Unit {0})) (xs : List A) (s : S)
    → All (λ x. (t : S) → f x t ≡ g x t) xs
    → for_each f xs s ≡ for_each g xs s
unfolding for_each
for_each_ext f g [] s h = refl
for_each_ext f g (x ∷ xs) s h =
    >>-cong (f x) (g x) (for_each f xs) (for_each g xs) s (h.0 s) (λ t. for_each_ext f g xs t h.1)

pub for_each_ext_all {ℓ κ} :
    {S : Type ℓ} {A : Type κ} (f g : A → Run S (Unit {0}))
    → ((x : A) (t : S) → f x t ≡ g x t)
    → (xs : List A) (s : S) → for_each f xs s ≡ for_each g xs s
unfolding for_each
for_each_ext_all f g h [] s = refl
for_each_ext_all f g h (x ∷ xs) s =
    >>-cong (f x) (g x) (for_each f xs) (for_each g xs) s (h x s) (for_each_ext_all f g h xs)

pub after_ok {ℓ κ μ} :
    {S : Type ℓ} {A : Type κ} {B : Type μ} (r : FlumeResult A × S) (a : A) (f : A → Run S B)
    → r.0 ≡ ok a
    → and_then r f ≡ f a r.1
after_ok (ok b, s) a f h = ground arith
after_ok (err e, s) a f h = cc
after_ok (panic, s) a f h = cc
