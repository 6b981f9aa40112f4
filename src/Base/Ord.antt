-- ===== src/Base/Ord.antt =====
-- The order of keys (`Ord` of the Rust library), as an interface: numbers, byte strings and pairs
-- in lexicographic order.
use Prim.Native.Nat.{ℕ}
use mathlib.Core.Path.{◌≡◌, refl}
use mathlib.Core.Bool.{Bool, true, false}
use mathlib.Core.List.{List, [], ◌∷◌}
use native.Mathlib.Omega.{arith}
use flume_rs.Base.Tests.{ltb, if◌then◌else◌}

pub record Ord {ℓ} (A : Type ℓ) : Type ℓ where
  pub lt : A → A → Bool
  pub irrefl : (a : A) → lt a a ≡ false
  pub trans : (a b c : A) → lt a b ≡ true → lt b c ≡ true → lt a c ≡ true
  pub connex : (a b : A) → lt a b ≡ false → lt b a ≡ false → a ≡ b

module _ {ℓ} {A : Type ℓ} ⦃o : Ord A⦄ where
  pub lt_asymm : (a b : A) → o.lt a b ≡ true → o.lt b a ≡ false
  lt_asymm a b h = ground (arith, o.trans a b a h, o.irrefl a)

  -- `a < b` and `b ≤ c` give `a < c`, and the other way round.
  pub lt_of_lt-le : (a b c : A) → o.lt a b ≡ true → o.lt c b ≡ false → o.lt a c ≡ true
  lt_of_lt-le a b c h k = ground (arith, o.trans a b c h, o.connex b c)

  pub lt_of_le-lt : (a b c : A) → o.lt b a ≡ false → o.lt b c ≡ true → o.lt a c ≡ true
  lt_of_le-lt a b c h k = ground (arith, o.trans a b c, o.connex a b)

pub nat_irrefl : (a : ℕ) → ltb a a ≡ false
nat_irrefl a = ground arith

pub nat_trans : (a b c : ℕ) → ltb a b ≡ true → ltb b c ≡ true → ltb a c ≡ true
nat_trans a b c h k = ground arith

pub nat_connex : (a b : ℕ) → ltb a b ≡ false → ltb b a ≡ false → a ≡ b
nat_connex a b h k = ground arith

instance abbrev pub nat_ord : Ord ℕ
nat_ord = record { lt = ltb; irrefl = nat_irrefl; trans = nat_trans; connex = nat_connex }

module _ {ℓ} {A : Type ℓ} ⦃o : Ord A⦄ where
  abbrev pub list_lt : List A → List A → Bool
  list_lt [] [] = false
  list_lt [] (y ∷ ys) = true
  list_lt (x ∷ xs) [] = false
  list_lt (x ∷ xs) (y ∷ ys) = if o.lt x y then true else if o.lt y x then false else list_lt xs ys

  pub list_irrefl : (xs : List A) → list_lt xs xs ≡ false
  list_irrefl [] = refl
  list_irrefl (x ∷ xs) = ground (arith, o.irrefl x, list_irrefl xs)

  pub list_connex : (xs ys : List A) → list_lt xs ys ≡ false → list_lt ys xs ≡ false → xs ≡ ys
  list_connex [] [] h k = refl
  list_connex [] (y ∷ ys) h k = cc
  list_connex (x ∷ xs) [] h k = cc
  list_connex (x ∷ xs) (y ∷ ys) h k = ground (arith, o.connex x y, list_connex xs ys)

  pub list_trans :
      (xs ys zs : List A) → list_lt xs ys ≡ true → list_lt ys zs ≡ true → list_lt xs zs ≡ true
  list_trans [] [] zs h k = cc
  list_trans [] (y ∷ ys) [] h k = cc
  list_trans [] (y ∷ ys) (z ∷ zs) h k = refl
  list_trans (x ∷ xs) [] zs h k = cc
  list_trans (x ∷ xs) (y ∷ ys) [] h k = cc
  list_trans (x ∷ xs) (y ∷ ys) (z ∷ zs) h k = ground (
    arith,
    o.trans x y z,
    lt_of_lt-le x y z,
    lt_of_le-lt x y z,
    lt_asymm x z,
    o.connex x y,
    o.connex y z,
    o.trans z x y,
    lt_asymm z y,
    list_trans xs ys zs,
  )

  instance abbrev pub list_ord : Ord (List A)
  list_ord = record { lt = list_lt; irrefl = list_irrefl; trans = list_trans; connex = list_connex }

module _ {ℓ κ} {A : Type ℓ} {B : Type κ} ⦃o : Ord A⦄ ⦃q : Ord B⦄ where
  abbrev pub pair_lt : A × B → A × B → Bool
  pair_lt x y = if o.lt x.0 y.0 then true else if o.lt y.0 x.0 then false else q.lt x.1 y.1

  pub pair_irrefl : (x : A × B) → pair_lt x x ≡ false
  pair_irrefl x = ground (arith, o.irrefl x.0, q.irrefl x.1)

  pub pair_connex : (x y : A × B) → pair_lt x y ≡ false → pair_lt y x ≡ false → x ≡ y
  pair_connex x y h k = ground (arith, o.connex x.0 y.0, q.connex x.1 y.1)

  pub pair_trans : (x y z : A × B) → pair_lt x y ≡ true → pair_lt y z ≡ true → pair_lt x z ≡ true
  pair_trans x y z h k = ground (
    arith,
    o.trans x.0 y.0 z.0,
    lt_of_lt-le x.0 y.0 z.0,
    lt_of_le-lt x.0 y.0 z.0,
    lt_asymm x.0 z.0,
    o.connex x.0 y.0,
    o.connex y.0 z.0,
    lt_asymm z.0 y.0,
    q.trans x.1 y.1 z.1,
  )

  instance abbrev pub pair_ord : Ord (A × B)
  pair_ord = record { lt = pair_lt; irrefl = pair_irrefl; trans = pair_trans; connex = pair_connex }
