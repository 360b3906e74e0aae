-- ===== src/Unicode/Masks.antt =====
-- The masks of unicode.c as arithmetic on a byte, each from a table of all bytes.
use libjeffpc.Base.{
  ℕ, ◌+◌, ◌*◌, ◌/◌, ◌^◌, ◌<◌, ◌≡◌, refl, ap, ◌∙◌, arith, bit_and, bit_or, all_below, eq_below,
  IsByte,
}
use libjeffpc.Base.Bits.{bit_or_high, pow_pos}
use native.Mathlib.Numerals.{towards_suc}

module _ (c : ℕ) (h : IsByte c) where
  pub mask_f8 : bit_and c 0xf8 ≡ c / 8 * 8
  unfolding all_below
  mask_f8 = eq_below 256 (λ c. bit_and c 0xf8) (λ c. c / 8 * 8) refl c h

  pub mask_f0 : bit_and c 0xf0 ≡ c / 16 * 16
  unfolding all_below
  mask_f0 = eq_below 256 (λ c. bit_and c 0xf0) (λ c. c / 16 * 16) refl c h

  pub mask_e0 : bit_and c 0xe0 ≡ c / 32 * 32
  unfolding all_below
  mask_e0 = eq_below 256 (λ c. bit_and c 0xe0) (λ c. c / 32 * 32) refl c h

  pub mask_c0 : bit_and c 0xc0 ≡ c / 64 * 64
  unfolding all_below
  mask_c0 = eq_below 256 (λ c. bit_and c 0xc0) (λ c. c / 64 * 64) refl c h

  pub mask_80 : bit_and c 0x80 ≡ c / 128 * 128
  unfolding all_below
  mask_80 = eq_below 256 (λ c. bit_and c 0x80) (λ c. c / 128 * 128) refl c h

pub set_80 : (x : ℕ) → x < 64 → bit_or 0x80 x ≡ 0x80 + x
set_80 x h = bit_or_high 7 1 x (omega arith)

pub shift_six : (k : ℕ) → 2 ^ (k + 6) ≡ 64 * 2 ^ k
shift_six k = simp towards_suc (omega arith)

-- Six more bits below those that are there.
pub join_six : (k r x : ℕ) → x < 64 → bit_or (r * 64 * 2 ^ k) (x * 2 ^ k) ≡ (r * 64 + x) * 2 ^ k
join_six k r x h =
    ap (λ (t : ℕ). bit_or t (x * 2 ^ k)) (omega (arith, ap (λ (t : ℕ). r * t) (shift_six k)))
    ∙ bit_or_high (k + 6) r (x * 2 ^ k) (rw (shift_six k) (grind (arith, pow_pos k)))
    ∙ omega (arith, ap (λ (t : ℕ). r * t) (shift_six k))
