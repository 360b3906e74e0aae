-- ===== src/Base/Endian.antt =====
-- Numbers written as big endian bytes are read back.
use libjeffpc.Base.{
  ℕ, zero, suc, ◌+◌, ◌*◌, ◌/◌, ◌%◌, ◌^◌, ◌<◌, ◌≡◌, refl, ap, ◌∙◌, arith, length, bit_and, bit_or,
  be_or, be_to_cpu, cpu_to_be, All, IsByte,
}
use libjeffpc.Base.Bits.{bit_and_low, bit_or_high, pow_pos, mod_mul}
use native.Mathlib.Nat.{pow-suc, mod-eq_of_lt, mul-le-mul_right}

pub length-cpu_to_be : (n v : ℕ) → length (cpu_to_be n v) ≡ n
unfolding cpu_to_be
length-cpu_to_be zero v = refl
length-cpu_to_be (suc n) v = ap suc (length-cpu_to_be n v)

pub cpu_to_be-IsByte : (n v : ℕ) → All IsByte (cpu_to_be n v)
unfolding cpu_to_be
cpu_to_be-IsByte zero v = tt
cpu_to_be-IsByte (suc n) v = (omega (arith, bit_and_low 8 (v / 2 ^ (n * 8))), cpu_to_be-IsByte n v)

pow_byte : (n : ℕ) → 2 ^ (suc n * 8) ≡ 256 * 2 ^ (n * 8)
pow_byte n =
    let e : suc n * 8 ≡ suc (suc (suc (suc (suc (suc (suc (suc (n * 8)))))))) = omega arith in
    rw e (simp pow-suc (omega arith))

-- A byte goes below the number read so far.
next_byte :
    (n a d : ℕ)
    → d < 256
    → bit_or (a * 2 ^ (suc n * 8)) (d * 2 ^ (n * 8)) ≡ (a * 256 + d) * 2 ^ (n * 8)
next_byte n a d h =
    let below : d * 2 ^ (n * 8) < 2 ^ (suc n * 8) =
      omega (arith, pow_byte n, mul-le-mul_right (2 ^ (n * 8)) h, pow_pos (n * 8)) in
    omega
      (arith, bit_or_high (suc n * 8) a (d * 2 ^ (n * 8)) below, ap (λ (t : ℕ). a * t) (pow_byte n))

be_or-cpu_to_be :
    (n a v : ℕ) → be_or (a * 2 ^ (n * 8)) (cpu_to_be n v) ≡ a * 2 ^ (n * 8) + v % 2 ^ (n * 8)
unfolding be_or cpu_to_be
be_or-cpu_to_be zero a v = omega arith
be_or-cpu_to_be (suc n) a v =
    let p = 2 ^ (n * 8) in
    let d = v / p % 256 in
    let place : length (cpu_to_be n v) ≡ n = length-cpu_to_be n v in
    let low : bit_and (v / p) 255 ≡ d = bit_and_low 8 (v / p) in
    let big : 2 ^ (suc n * 8) ≡ 256 * p = pow_byte n in
    let below : d < 256 = omega arith in
    rw (cpu_to_be, be_or, place, low, next_byte n a d below, be_or-cpu_to_be n (a * 256 + d) v, big)
      (omega (arith, mod_mul p 256 v (pow_pos (n * 8)) (omega arith)))

pub be_to_cpu-cpu_to_be : (n v : ℕ) → v < 2 ^ (n * 8) → be_to_cpu (cpu_to_be n v) ≡ v
unfolding be_to_cpu
be_to_cpu-cpu_to_be n v h =
    let start : 0 ≡ 0 * 2 ^ (n * 8) = omega arith in
    ap (λ (t : ℕ). be_or t (cpu_to_be n v)) start
    ∙ be_or-cpu_to_be n 0 v
    ∙ omega (arith, mod-eq_of_lt h)
