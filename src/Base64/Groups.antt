-- ===== src/Base64/Groups.antt =====
-- One group of the decoder in plain arithmetic, and the check for INV.
use libjeffpc.Base.{
  ℕ, suc, ◌+◌, ◌*◌, ◌/◌, ◌%◌, ◌^◌, ◌<◌, ◌≡◌, refl, ap, ◌∙◌, ◌⊎◌, true, ◌||◌, List, ◌∷◌, arith, ltb,
  ltb→lt, ◌==◌, bit_and, bit_or, IsByte, all_below, all_below_sound, eq_below,
}
use libjeffpc.Base.Bits.{bit_and_low, bit_or_high}
use libjeffpc.Base64.{check_inv, decode_groups}
use libjeffpc.Base64.Tables.{inv, at, IsDecodeTable}
use libjeffpc.Base64.Spec.{whole_group, both}

-- What a decoding table holds.
abbrev pub IsEntry : ℕ → Type 0
IsEntry x = (x < 64) ⊎ (x ≡ inv)

or_table : all_below 4096 (λ n. ltb (bit_or (n / 64) (n % 64)) 64) ≡ true
unfolding all_below
or_table = refl

or_small : (x y : ℕ) → x < 64 → y < 64 → bit_or x y < 64
or_small x y hx hy =
    let n = x * 64 + y in
    let high : n / 64 ≡ x = omega arith in
    let low : n % 64 ≡ y = omega arith in
    rw (high, low) at
      (ltb→lt _ _
        (all_below_sound 4096 (λ m. ltb (bit_or (m / 64) (m % 64)) 64) n or_table (omega arith)))

inv_or : (y : ℕ) → y < 256 → bit_or inv y ≡ inv
unfolding all_below
inv_or = eq_below 256 (λ y. bit_or inv y) (λ y. inv) refl

or_inv : (x : ℕ) → x < 256 → bit_or x inv ≡ inv
unfolding all_below
or_inv = eq_below 256 (λ x. bit_or x inv) (λ x. inv) refl

or-IsEntry :
    (x y : ℕ)
    → IsEntry x
    → IsEntry y
    → IsEntry (bit_or x y) × ((bit_or x y == inv) ≡ ((x == inv) || (y == inv)))
or-IsEntry x y hx hy = ground (arith, or_small x y, inv_or y, or_inv x)

-- The test of four values by one comparison finds INV exactly where one of them is INV.
pub check_inv_lem :
    (a b c d : ℕ)
    → IsEntry a
    → IsEntry b
    → IsEntry c
    → IsEntry d
    → check_inv a b c d ≡ (((a == inv) || (b == inv)) || (c == inv)) || (d == inv)
unfolding check_inv
check_inv_lem a b c d ha hb hc hd =
    let (ab, eab) = or-IsEntry a b ha hb in
    let (abc, eabc) = or-IsEntry (bit_or a b) c ab hc in
    let (abcd, e) = or-IsEntry (bit_or (bit_or a b) c) d abc hd in rw (e, eabc, eab)

pub four_joined :
    (a b c d : ℕ)
    → b < 64
    → c < 64
    → d < 64
    → bit_or (bit_or (bit_or (a * 2 ^ 18) (b * 2 ^ 12)) (c * 2 ^ 6)) d
      ≡ ((a * 64 + b) * 64 + c) * 64 + d
four_joined a b c d hb hc hd =
    let ab : bit_or (a * 2 ^ 18) (b * 2 ^ 12) ≡ (a * 64 + b) * 2 ^ 12 =
      bit_or_high 18 a (b * 2 ^ 12) (omega arith) ∙ omega arith in
    let abc : bit_or ((a * 64 + b) * 2 ^ 12) (c * 2 ^ 6) ≡ ((a * 64 + b) * 64 + c) * 2 ^ 6 =
      bit_or_high 12 (a * 64 + b) (c * 2 ^ 6) (omega arith) ∙ omega arith in
    ap (λ (t : ℕ). bit_or (bit_or t (c * 2 ^ 6)) d) ab
    ∙ ap (λ (t : ℕ). bit_or t d) abc
    ∙ bit_or_high 6 ((a * 64 + b) * 64 + c) d hd

pub low_byte : (v k x : ℕ) → v / 2 ^ k % 256 ≡ x → bit_and (v / 2 ^ k) 0xff ≡ x
low_byte v k x e = bit_and_low 8 (v / 2 ^ k) ∙ e

-- A round of the loop decodes one group.
module _ (dec : List ℕ) (ok : IsDecodeTable dec) (k a b c d : ℕ) (rest : List ℕ) where
  pub decode_groups_step :
      IsByte a
      → IsByte b
      → IsByte c
      → IsByte d
      → decode_groups dec (suc k) (a ∷ b ∷ c ∷ d ∷ rest)
        ≡ both (whole_group dec a b c d) (decode_groups dec k rest)
  unfolding decode_groups
  decode_groups_step ha hb hc hd =
      let check =
        check_inv_lem (at dec a) (at dec b) (at dec c) (at dec d) (ok.entries a ha)
          (ok.entries b hb) (ok.entries c hc) (ok.entries d hd) in
      let A = at dec a in
      let v = ((A * 64 + at dec b) * 64 + at dec c) * 64 + at dec d in
      ground (
        arith,
        check,
        ok.entries a ha,
        ok.entries b hb,
        ok.entries c hc,
        ok.entries d hd,
        four_joined (at dec a) (at dec b) (at dec c) (at dec d),
        bit_and_low 8 v,
        bit_and_low 8 (v / 2 ^ 8),
        bit_and_low 8 (v / 2 ^ 16),
      )
