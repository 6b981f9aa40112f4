-- ===== src/Base/Bits.antt =====
-- A mask of low ones is a remainder, and a window of consecutive numbers has distinct remainders.
use Prim.Native.Nat.{
  ℕ, zero, suc, ◌+◌, ◌-◌, ◌*◌, ◌/◌, ◌%◌, ◌^◌, ◌≤◌, ◌<◌, min, digits, bit_and, bit_and-bitwise,
}
use mathlib.Core.Path.{◌≡◌, refl, ◌∙◌, ap}
use mathlib.Core.Logic.{◌≢◌}
use native.Mathlib.Nat.{
  mod-lt, mod-eq_of_lt, mul-add-mod_self_left, div-add-mod, pow-suc, one-le-pow, mul_comm,
  mod-eq-sub-mod, mod-add-mod,
}
use native.Mathlib.Omega.{arith}

-- `&` by the digits that define it, for any bound on the first number.
conj : ℕ → ℕ → ℕ → ℕ
conj = digits (λ _. zero) min

conj-stable : (m n x y : ℕ) → x ≤ m → x ≤ n → conj m x y ≡ conj n x y
unfolding conj
conj-stable zero zero x y h k = refl
conj-stable zero (suc n) zero y h k = refl
conj-stable zero (suc n) (suc x) y h k = absurd (omega arith)
conj-stable (suc m) zero zero y h k = refl
conj-stable (suc m) zero (suc x) y h k = absurd (omega arith)
conj-stable (suc m) (suc n) zero y h k = refl
conj-stable (suc m) (suc n) (suc x) y h k =
    omega (arith, conj-stable m n (suc x / 2) (y / 2) (omega arith) (omega arith))

and-eq-conj : (n x y : ℕ) → x ≤ n → bit_and x y ≡ conj n x y
unfolding conj
and-eq-conj n x y h = bit_and-bitwise x y ∙ conj-stable x n x y (omega arith) h

-- One digit of `&`.
and-halves : (x y : ℕ) → bit_and x y ≡ 2 * bit_and (x / 2) (y / 2) + min (x % 2) (y % 2)
unfolding conj
and-halves zero y = omega (arith, bit_and-bitwise 0 y, bit_and-bitwise 0 (y / 2))
and-halves (suc x) y =
    omega (arith, bit_and-bitwise (suc x) y, and-eq-conj x (suc x / 2) (y / 2) (omega arith))

mod-double : (x p : ℕ) → 0 < p → (x / 2) % p * 2 + x % 2 ≡ x % (2 * p)
mod-double x p h = ground (
  arith,
  div-add-mod (x / 2) p,
  mul-add-mod_self_left (2 * p) (x / 2 / p) ((x / 2) % p * 2 + x % 2),
  mod-lt (x / 2) h,
  mod-eq_of_lt {n = (x / 2) % p * 2 + x % 2} {m = 2 * p},
)

and-zero : (n x : ℕ) → x ≤ n → bit_and x 0 ≡ 0
and-zero zero x h =
    omega (arith, and-halves x 0, bit_and-bitwise 0 0, ap (λ a. bit_and a 0) zero_of)
  where
    zero_of : x ≡ 0
    zero_of = omega arith
and-zero (suc n) x h = omega (arith, and-halves x 0, and-zero n (x / 2) (omega arith))

-- `x & (2 ^ k - 1)`.
pub and-mask : (k x : ℕ) → bit_and x (2 ^ k - 1) ≡ x % 2 ^ k
and-mask zero x = omega (arith, and-zero x x (omega arith))
and-mask (suc k) x = omega (
  arith,
  and-halves x (2 ^ suc k - 1),
  ap (bit_and (x / 2)) half,
  and-mask k (x / 2),
  mod-double x (2 ^ k) (one-le-pow k 2 (omega arith)),
  ap (λ m. x % m) (pow-suc 2 k ∙ mul_comm (2 ^ k) 2),
  odd,
)
  where
    half : (2 ^ suc k - 1) / 2 ≡ 2 ^ k - 1
    half = omega (arith, pow-suc 2 k)

    odd : (2 ^ suc k - 1) % 2 ≡ 1
    odd = omega (arith, pow-suc 2 k, one-le-pow k 2 (omega arith))

-- Less than `n` apart, and not equal: then not equal modulo `n`.
pub mod-ne : (n s d : ℕ) → 0 < d → d < n → (s + d) % n ≢ s % n
mod-ne n s d h k e = ground (
  arith,
  mod-add-mod s n d,
  mod-lt s {m = n} (omega arith),
  mod-eq_of_lt {n = s % n + d} {m = n},
  mod-eq-sub-mod {n = s % n + d} {m = n},
  mod-eq_of_lt {n = s % n + d - n} {m = n},
)
