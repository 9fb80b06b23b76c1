-- ===== src/Prelude/Bits.antt =====
-- A mask of `k` ones, and the or of disjoint fields, as arithmetic, for every width.
use Prim.Native.Nat.{
  ℕ, zero, suc, ◌+◌, ◌*◌, ◌/◌, ◌%◌, ◌^◌, ◌≤◌, ◌<◌, min, max, bit_and, bit_or, digits,
  bit_and-bitwise, bit_or-bitwise,
}
use mathlib.Core.Path.{◌≡◌, refl, ap, ◌∙◌}
use native.Mathlib.Nat.{
  pow-suc, one-le-pow, mod-lt, mod-eq_of_lt, mul-add-mod_self_left, div-add-mod,
}
use native.Mathlib.Omega.{arith}

-- The fuel of the digit recursion does not matter once it covers the first argument.
module _ (base : ℕ → ℕ) (op : ℕ → ℕ → ℕ) where
  digits_enough : (f g a b : ℕ) → a ≤ f → a ≤ g → digits base op f a b ≡ digits base op g a b
  digits_enough zero zero a b p q = refl
  digits_enough zero (suc g) zero b p q = refl
  digits_enough zero (suc g) (suc a) b p q = elim p [ ]
  digits_enough (suc f) zero zero b p q = refl
  digits_enough (suc f) zero (suc a) b p q = elim q [ ]
  digits_enough (suc f) (suc g) zero b p q = refl
  digits_enough (suc f) (suc g) (suc a) b p q =
      omega (arith, digits_enough f g (suc a / 2) (b / 2) (omega arith) (omega arith))

-- One binary digit at a time.
pub bit_and_digit : (a b : ℕ) → bit_and a b ≡ bit_and (a / 2) (b / 2) * 2 + min (a % 2) (b % 2)
bit_and_digit zero b = omega (arith, bit_and-bitwise 0 b, bit_and-bitwise 0 (b / 2))
bit_and_digit (suc a) b = omega (
  arith,
  bit_and-bitwise (suc a) b,
  bit_and-bitwise (suc a / 2) (b / 2),
  digits_enough (λ n. zero) min a (suc a / 2) (suc a / 2) (b / 2) (omega arith) (omega arith),
)

pub bit_or_digit : (a b : ℕ) → bit_or a b ≡ bit_or (a / 2) (b / 2) * 2 + max (a % 2) (b % 2)
bit_or_digit zero b = omega (arith, bit_or-bitwise 0 b, bit_or-bitwise 0 (b / 2))
bit_or_digit (suc a) b = omega (
  arith,
  bit_or-bitwise (suc a) b,
  bit_or-bitwise (suc a / 2) (b / 2),
  digits_enough (λ n. n) max a (suc a / 2) (suc a / 2) (b / 2) (omega arith) (omega arith),
)

bit_and-zero_upto : (n a : ℕ) → a ≤ n → bit_and a 0 ≡ 0
bit_and-zero_upto n zero h = refl
bit_and-zero_upto zero (suc a) h = elim h [ ]
bit_and-zero_upto (suc n) (suc a) h =
    omega (arith, bit_and_digit (suc a) 0, bit_and-zero_upto n (suc a / 2) (omega arith))

-- A remainder by `p * 2` keeps the last digit, and the remainder by `p` of the rest.
mod_halves : (p a : ℕ) → 0 < p → a % (p * 2) ≡ a / 2 % p * 2 + a % 2
mod_halves p a pos =
    let r : ℕ = a / 2 % p * 2 + a % 2 in
    let whole : a ≡ p * 2 * (a / 2 / p) + r = omega (arith, div-add-mod (a / 2) p) in
    let small : r < p * 2 = omega (arith, mod-lt (a / 2) pos) in
    ap (λ n. n % (p * 2)) whole ∙ mul-add-mod_self_left (p * 2) (a / 2 / p) r ∙ mod-eq_of_lt small

-- A mask of `k` ones keeps the remainder by `2 ^ k`.
pub bit_and_mask : (k a m : ℕ) → m + 1 ≡ 2 ^ k → bit_and a m ≡ a % 2 ^ k
bit_and_mask zero a m h =
    let e : m ≡ 0 = omega arith in rw e (omega (arith, bit_and-zero_upto a a (omega arith)))
bit_and_mask (suc k) a m h =
    let p : 2 ^ suc k ≡ 2 ^ k * 2 = pow-suc 2 k in
    rw p (
      omega (
        arith,
        bit_and_digit a m,
        mod_halves (2 ^ k) a (one-le-pow k 2 (omega arith)),
        bit_and_mask k (a / 2) (m / 2) (omega arith),
      ))

-- `a | (b << k)` is a sum where `a` has at most `k` bits.
pub bit_or_fields : (k a b : ℕ) → a < 2 ^ k → bit_or a (b * 2 ^ k) ≡ a + b * 2 ^ k
bit_or_fields zero a b h =
    let e : a ≡ 0 = omega arith in rw e (bit_or-bitwise 0 (b * 1) ∙ omega arith)
bit_or_fields (suc k) a b h =
    let p : 2 ^ suc k ≡ 2 ^ k * 2 = pow-suc 2 k in
    rw p (
      omega (
        arith,
        bit_or_digit a (b * (2 ^ k * 2)),
        ap (λ n. bit_or (a / 2) n) halves,
        bit_or_fields k (a / 2) b (omega arith),
      ))
  where
    halves : b * (2 ^ k * 2) / 2 ≡ b * 2 ^ k
    halves = omega arith
