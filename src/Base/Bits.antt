-- ===== src/Base/Bits.antt =====
-- `bit_and` and `bit_or` at variables, from the digit recursion that the native operations stand
-- for.
use Prim.Native.Nat.{
  ℕ, zero, suc, ◌+◌, ◌*◌, ◌/◌, ◌%◌, ◌^◌, ◌-◌, ◌≤◌, ◌<◌, min, max, bit_and, bit_or, digits,
  bit_and-bitwise, bit_or-bitwise,
}
use mathlib.Core.Path.{◌≡◌, refl, sym, ◌∙◌, ap}
use native.Mathlib.Omega.{arith}
use native.Mathlib.Nat.{
  pow-suc, mod-lt, mod-eq_of_lt, mul-add-mod_self_right, mul-le-mul_right, div-add-mod',
}

-- The recursion on digits does not depend on its fuel, once there is enough of it.
module _ (z : ℕ → ℕ) (f : ℕ → ℕ → ℕ) where
  digits_end : (k y : ℕ) → digits z f k 0 y ≡ z y
  digits_end zero y = refl
  digits_end (suc k) y = refl

  digits_stable : (k l x y : ℕ) → x ≤ k → x ≤ l → digits z f k x y ≡ digits z f l x y
  digits_stable k l zero y hk hl = digits_end k y ∙ sym (digits_end l y)
  digits_stable zero l (suc x) y hk hl = absurd (omega arith)
  digits_stable (suc k) zero (suc x) y hk hl = absurd (omega arith)
  digits_stable (suc k) (suc l) (suc x) y hk hl =
      rw (digits_stable k l (suc x / 2) (y / 2) (omega arith) (omega arith))

  -- The fuel that the recursion gets for the number less one is enough for its half.
  digits_half : (x y : ℕ) → digits z f x (suc x / 2) y ≡ digits z f (suc x / 2) (suc x / 2) y
  digits_half x y = digits_stable x (suc x / 2) (suc x / 2) y (omega arith) (omega arith)

pub bit_and_step : (x y : ℕ) → bit_and x y ≡ bit_and (x / 2) (y / 2) * 2 + min (x % 2) (y % 2)
bit_and_step zero y = omega (arith, bit_and-bitwise 0 y, bit_and-bitwise 0 (y / 2))
bit_and_step (suc x) y = omega (
  arith,
  digits_half (λ b. zero) min x (y / 2),
  bit_and-bitwise (suc x / 2) (y / 2),
  bit_and-bitwise (suc x) y,
)

pub bit_or_step : (x y : ℕ) → bit_or x y ≡ bit_or (x / 2) (y / 2) * 2 + max (x % 2) (y % 2)
bit_or_step zero y = omega (arith, bit_or-bitwise 0 y, bit_or-bitwise 0 (y / 2))
bit_or_step (suc x) y = omega (
  arith,
  digits_half (λ b. b) max x (y / 2),
  bit_or-bitwise (suc x / 2) (y / 2),
  bit_or-bitwise (suc x) y,
)

-- Induction on the number of binary digits.
halving : (P : ℕ → Type 0) → P 0 → ((x : ℕ) → P (suc x / 2) → P (suc x)) → (x : ℕ) → P x
halving P base step x = below x x (omega arith)
  where
    below : (k y : ℕ) → y ≤ k → P y
    below k zero h = base
    below zero (suc y) h = absurd (omega arith)
    below (suc k) (suc y) h = step y (below k (suc y / 2) (omega arith))

bit_and-zero : (x : ℕ) → bit_and x 0 ≡ 0
bit_and-zero =
    halving (λ x. bit_and x 0 ≡ 0) refl (λ x half. omega (arith, half, bit_and_step (suc x) 0))

pub bit_or-zero : (x : ℕ) → bit_or x 0 ≡ x
bit_or-zero =
    halving (λ x. bit_or x 0 ≡ x) refl (λ x half. omega (arith, half, bit_or_step (suc x) 0))

pub pow_pos : (k : ℕ) → 0 < 2 ^ k
pow_pos zero = omega arith
pow_pos (suc k) = rw (pow-suc 2 k) (omega (arith, pow_pos k))

-- The digits in base `p` and in base `q` of a remainder by their product.
pub mod_mul : (p q a : ℕ) → 0 < p → 0 < q → a % (q * p) ≡ a / p % q * p + a % p
mod_mul p q a hp hq =
    ap (λ (t : ℕ). t % (q * p)) split
    ∙ mul-add-mod_self_right (a / p / q) (q * p) (a / p % q * p + a % p)
    ∙ mod-eq_of_lt below
  where
    split : a ≡ a / p / q * (q * p) + (a / p % q * p + a % p)
    split = omega (arith, div-add-mod' a p, ap (λ (t : ℕ). t * p) (div-add-mod' (a / p) q))

    next : suc (a / p % q) ≤ q
    next = omega (arith, mod-lt (a / p) hq)

    below : a / p % q * p + a % p < q * p
    below = omega (arith, mod-lt a hp, mul-le-mul_right p next)

-- The lowest digit splits off a remainder by a power of two.
mod-pow_suc : (k a : ℕ) → a % 2 ^ suc k ≡ a / 2 % 2 ^ k * 2 + a % 2
mod-pow_suc k a = rw (pow-suc 2 k) (mod_mul 2 (2 ^ k) a (omega arith) (pow_pos k))

-- A mask of k ones keeps the k lowest bits.
pub bit_and_low : (k a : ℕ) → bit_and a (2 ^ k - 1) ≡ a % 2 ^ k
bit_and_low zero a = omega (arith, bit_and-zero a)
bit_and_low (suc k) a = omega (
  arith,
  bit_and_step a (2 ^ suc k - 1),
  ap (λ (t : ℕ). bit_and (a / 2) t) half,
  bit_and_low k (a / 2),
  mod-pow_suc k a,
  pow_pos k,
  pow-suc 2 k,
)
  where
    half : (2 ^ suc k - 1) / 2 ≡ 2 ^ k - 1
    half = omega (arith, pow-suc 2 k, pow_pos k)

-- The bits of `b` fit below those of `a * 2 ^ k`.
pub bit_or_high : (k a b : ℕ) → b < 2 ^ k → bit_or (a * 2 ^ k) b ≡ a * 2 ^ k + b
bit_or_high zero a zero h = bit_or-zero (a * 1) ∙ omega arith
bit_or_high zero a (suc b) h = absurd (omega arith)
bit_or_high (suc k) a b h = omega (
  arith,
  bit_or_step (a * 2 ^ suc k) b,
  ap (λ (t : ℕ). bit_or t (b / 2)) half,
  bit_or_high k a (b / 2) (omega (arith, pow-suc 2 k)),
  ap (λ (t : ℕ). a * t) (pow-suc 2 k),
)
  where
    half : a * 2 ^ suc k / 2 ≡ a * 2 ^ k
    half = omega (arith, ap (λ (t : ℕ). a * t) (pow-suc 2 k))
