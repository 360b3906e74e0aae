-- ===== src/Unicode/Decode.antt =====
-- The decoder: what it reads is UTF-8, and it reads back all of UTF-8.
use libjeffpc.Base.{
  ℕ, zero, suc, ◌+◌, ◌-◌, ◌*◌, ◌/◌, ◌%◌, ◌^◌, ◌≤◌, ◌<◌, ◌≡◌, refl, ◌∙◌, ap, ◌⊎◌, inl, inr, true,
  false, Option, none, some, List, [], ◌∷◌, ◌++◌, arith, ◌==◌, ltb, leb, ◌&&◌, Bool-cases,
  drop-append, if◌then◌else◌, length, drop, All, IsByte,
}
use libjeffpc.Base.Bits.{bit_and_low}
use libjeffpc.Unicode.{Lead, lead_byte, more_bytes, check_range, utf8_to_utf32, utf32_is_valid}
use libjeffpc.Unicode.Spec.{IsScalar, utf8}
use libjeffpc.Unicode.Masks.{mask_f8, mask_f0, mask_e0, mask_c0, mask_80, join_six, shift_six}
use native.Mathlib.Decide.{dec_lt}

module _ (c : ℕ) (h : IsByte c) where
  lead_one : c < 128 → lead_byte c ≡ some (record { len = 1; res = c; mincp = 0; maxcp = 0x7f })
  unfolding lead_byte
  lead_one p = ground (arith, mask_f8 c h, mask_f0 c h, mask_e0 c h, mask_80 c h, bit_and_low 7 c)

  lead_two :
      192 ≤ c
      → c < 224
      → lead_byte c
        ≡ some (record { len = 2; res = (c - 192) * 2 ^ 6; mincp = 0x80; maxcp = 0x7ff })
  unfolding lead_byte
  lead_two p q = ground (arith, mask_f8 c h, mask_f0 c h, mask_e0 c h, mask_80 c h, bit_and_low 5 c)

  lead_three :
      224 ≤ c
      → c < 240
      → lead_byte c
        ≡ some (record { len = 3; res = (c - 224) * 2 ^ 12; mincp = 0x800; maxcp = 0xffff })
  unfolding lead_byte
  lead_three p q =
      ground (arith, mask_f8 c h, mask_f0 c h, mask_e0 c h, mask_80 c h, bit_and_low 4 c)

  lead_four :
      240 ≤ c
      → c < 248
      → lead_byte c
        ≡ some (record { len = 4; res = (c - 240) * 2 ^ 18; mincp = 0x10000; maxcp = 0x10ffff })
  unfolding lead_byte
  lead_four p q =
      ground (arith, mask_f8 c h, mask_f0 c h, mask_e0 c h, mask_80 c h, bit_and_low 3 c)

  lead_none : (128 ≤ c) × (c < 192) ⊎ (248 ≤ c) → lead_byte c ≡ none
  unfolding lead_byte
  lead_none p = ground (arith, mask_f8 c h, mask_f0 c h, mask_e0 c h, mask_80 c h)

-- The other bytes in plain arithmetic: each adds six bits.
six_bits : ℕ → List ℕ → ℕ → Option ℕ
six_bits zero rest r = some r
six_bits (suc k) [] r = none
six_bits (suc k) (c ∷ rest) r = elim (c / 64 == 2) [
  | true ↦ six_bits k rest (r * 64 + c % 64)
  | false ↦ none
]

shift_round : (k : ℕ) → 2 ^ (6 * suc k) ≡ 64 * 2 ^ (6 * k)
shift_round k = ap (λ (t : ℕ). 2 ^ t) (omega arith) ∙ shift_six (6 * k)

more_bytes-six_bits :
    (k : ℕ) (rest : List ℕ) (r : ℕ)
    → All IsByte rest
    → more_bytes k rest (r * 2 ^ (6 * k)) ≡ six_bits k rest r
unfolding more_bytes six_bits
more_bytes-six_bits zero rest r h = ap some (omega arith)
more_bytes-six_bits (suc k) [] r h = refl
more_bytes-six_bits (suc k) (c ∷ rest) r (hc, hr) =
    let here : r * 2 ^ (6 * suc k) ≡ r * 64 * 2 ^ (6 * k) =
      omega (arith, ap (λ (t : ℕ). r * t) (shift_round k)) in
    ground (
      arith,
      mask_c0 c hc,
      bit_and_low 6 c,
      here,
      join_six (6 * k) r (c % 64),
      more_bytes-six_bits k rest (r * 64 + c % 64) hr,
    )

-- The decoder behind its first byte.
after_lead :
    (c : ℕ) (rest : List ℕ) (l : Lead)
    → lead_byte c ≡ some l
    → utf8_to_utf32 (c ∷ rest) ≡ (
        if ltb (suc (length rest)) l.len
        then (0, none)
        else elim (more_bytes (l.len - 1) rest l.res) [
          | none ↦ (0, none)
          | some res ↦ check_range l res
        ])
unfolding utf8_to_utf32
after_lead c rest l e = rw (utf8_to_utf32, e)

module _ (cp : ℕ) (rest : List ℕ) (h : All IsByte rest) where
  reads_one : cp < 0x80 → utf8_to_utf32 (cp ∷ rest) ≡ (1, some cp)
  unfolding check_range more_bytes
  reads_one p = after_lead cp rest _ (lead_one cp (omega arith) p) ∙ ground arith

  reads_two :
      0x80 ≤ cp
      → cp < 0x800
      → utf8_to_utf32 ((0xc0 + cp / 64) ∷ (0x80 + cp % 64) ∷ rest) ≡ (2, some cp)
  unfolding check_range six_bits
  reads_two p q =
      after_lead _ _ _ (lead_two (0xc0 + cp / 64) (omega arith) (omega arith) (omega arith))
      ∙ ground (
        arith,
        more_bytes-six_bits 1 ((0x80 + cp % 64) ∷ rest) (0xc0 + cp / 64 - 192) (omega arith, h),
      )

  reads_three :
      0x800 ≤ cp
      → cp < 0x10000
      → IsScalar cp
      → utf8_to_utf32 ((0xe0 + cp / 4096) ∷ (0x80 + cp / 64 % 64) ∷ (0x80 + cp % 64) ∷ rest)
        ≡ (3, some cp)
  unfolding check_range six_bits
  reads_three p q s =
      after_lead _ _ _ (lead_three (0xe0 + cp / 4096) (omega arith) (omega arith) (omega arith))
      ∙ ground (
        arith,
        more_bytes-six_bits 2 ((0x80 + cp / 64 % 64) ∷ (0x80 + cp % 64) ∷ rest)
            (0xe0 + cp / 4096 - 224) (omega arith, (omega arith, h)),
      )

  reads_four :
      0x10000 ≤ cp
      → cp ≤ 0x10ffff
      → utf8_to_utf32 (
          (0xf0 + cp / 262144)
          ∷ (0x80 + cp / 4096 % 64)
          ∷ (0x80 + cp / 64 % 64)
          ∷ (0x80 + cp % 64)
          ∷ rest)
        ≡ (4, some cp)
  unfolding check_range six_bits
  reads_four p q =
      after_lead _ _ _ (lead_four (0xf0 + cp / 262144) (omega arith) (omega arith) (omega arith))
      ∙ ground (
        arith,
        more_bytes-six_bits 3
            ((0x80 + cp / 4096 % 64) ∷ (0x80 + cp / 64 % 64) ∷ (0x80 + cp % 64) ∷ rest)
            (0xf0 + cp / 262144 - 240) (omega arith, (omega arith, (omega arith, h))),
      )

-- In front of any bytes, the decoder reads the UTF-8 sequence of a scalar value back: it returns
-- that sequence's length and the value.
pub utf8_to_utf32-utf8 :
    (cp : ℕ) (rest : List ℕ)
    → IsScalar cp
    → All IsByte rest
    → utf8_to_utf32 (utf8 cp ++ rest) ≡ (length (utf8 cp), some cp)
unfolding utf8
utf8_to_utf32-utf8 cp rest s h =
    ground
      (arith, reads_one cp rest h, reads_two cp rest h, reads_three cp rest h, reads_four cp rest h)

-- The decoder refused, or read the UTF-8 sequence of a scalar value off the front of the input.
abbrev pub Reads : List ℕ → ℕ × Option ℕ → Type 0
Reads input r =
    (r ≡ (0, none))
    ⊎ ((cp : ℕ) × IsScalar cp
        × (r ≡ (length (utf8 cp), some cp))
        × (input ≡ utf8 cp ++ drop (length (utf8 cp)) input))

-- Input that begins with the sequence of a scalar value is read so.
Reads-utf8 :
    (input : List ℕ) (cp : ℕ) (rest : List ℕ)
    → IsScalar cp
    → All IsByte rest
    → input ≡ utf8 cp ++ rest
    → Reads input (utf8_to_utf32 input)
Reads-utf8 input cp rest s h e =
    rw e (inr (cp, s, utf8_to_utf32-utf8 cp rest s h, rw (drop-append (utf8 cp) rest)))

module _ (c : ℕ) (hc : IsByte c) where
  Reads-two :
      (rest : List ℕ)
      → All IsByte rest
      → 192 ≤ c
      → c < 224
      → Reads (c ∷ rest) (utf8_to_utf32 (c ∷ rest))
  unfolding check_range six_bits utf8
  Reads-two [] h p q = inl (after_lead c [] _ (lead_two c hc p q) ∙ ground arith)
  Reads-two (d ∷ r) (hd, hr) p q =
      let cp = (c - 192) * 64 + d % 64 in
      elim (Bool-cases (d / 64 == 2 && leb 0x80 cp)) [
        | inl good ↦ Reads-utf8 (c ∷ d ∷ r) cp r (ground arith) hr (ground arith)
        | inr bad ↦ inl (
            after_lead c (d ∷ r) _ (lead_two c hc p q)
            ∙ ground (arith, more_bytes-six_bits 1 (d ∷ r) (c - 192) (hd, hr)))
      ]

  Reads-three :
      (rest : List ℕ)
      → All IsByte rest
      → 224 ≤ c
      → c < 240
      → Reads (c ∷ rest) (utf8_to_utf32 (c ∷ rest))
  unfolding check_range six_bits utf8
  Reads-three [] h p q = inl (after_lead c [] _ (lead_three c hc p q) ∙ ground arith)
  Reads-three (d ∷ []) h p q = inl (after_lead c (d ∷ []) _ (lead_three c hc p q) ∙ ground arith)
  Reads-three (d ∷ e ∷ r) (hd, (he, hr)) p q =
      let cp = ((c - 224) * 64 + d % 64) * 64 + e % 64 in
      elim (Bool-cases (d / 64 == 2 && (e / 64 == 2 && (leb 0x800 cp && utf32_is_valid cp)))) [
        | inl good ↦ Reads-utf8 (c ∷ d ∷ e ∷ r) cp r (ground arith) hr (ground arith)
        | inr bad ↦ inl (
            after_lead c (d ∷ e ∷ r) _ (lead_three c hc p q)
            ∙ ground (arith, more_bytes-six_bits 2 (d ∷ e ∷ r) (c - 224) (hd, (he, hr))))
      ]

  Reads-four :
      (rest : List ℕ)
      → All IsByte rest
      → 240 ≤ c
      → c < 248
      → Reads (c ∷ rest) (utf8_to_utf32 (c ∷ rest))
  unfolding check_range six_bits utf8
  Reads-four [] h p q = inl (after_lead c [] _ (lead_four c hc p q) ∙ ground arith)
  Reads-four (d ∷ []) h p q = inl (after_lead c (d ∷ []) _ (lead_four c hc p q) ∙ ground arith)
  Reads-four (d ∷ e ∷ []) h p q =
      inl (after_lead c (d ∷ e ∷ []) _ (lead_four c hc p q) ∙ ground arith)
  Reads-four (d ∷ e ∷ f ∷ r) (hd, (he, (hf, hr))) p q =
      let cp = (((c - 240) * 64 + d % 64) * 64 + e % 64) * 64 + f % 64 in
      let tails = d / 64 == 2 && (e / 64 == 2 && f / 64 == 2) in
      elim (Bool-cases (tails && (leb 0x10000 cp && leb cp 0x10ffff))) [
        | inl good ↦ Reads-utf8 (c ∷ d ∷ e ∷ f ∷ r) cp r (ground arith) hr (ground arith)
        | inr bad ↦ inl (
            after_lead c (d ∷ e ∷ f ∷ r) _ (lead_four c hc p q)
            ∙ ground (arith, more_bytes-six_bits 3 (d ∷ e ∷ f ∷ r) (c - 240) (hd, (he, (hf, hr)))))
      ]

  Reads-bad :
      (rest : List ℕ)
      → (128 ≤ c) × (c < 192) ⊎ (248 ≤ c)
      → Reads (c ∷ rest) (utf8_to_utf32 (c ∷ rest))
  unfolding utf8_to_utf32
  Reads-bad rest p = inl (rw (utf8_to_utf32, lead_none c hc p))

-- On any bytes the decoder either refuses, storing nothing and returning 0, or reads the sequence of
-- a scalar value that stands at the front, and returns its length. So it takes no overlong form,
-- no surrogate and nothing above U+10FFFF.
pub utf8_to_utf32-Reads : (input : List ℕ) → All IsByte input → Reads input (utf8_to_utf32 input)
utf8_to_utf32-Reads [] h = unfold utf8_to_utf32 in inl refl
utf8_to_utf32-Reads (c ∷ rest) (hc, hr) = elim (dec_lt c 128) [
  | yes p ↦ Reads-utf8 (c ∷ rest) c rest (inl (omega arith)) hr (unfold utf8 in ground arith)
  | no p ↦ elim (dec_lt c 192) [
    | yes q ↦ Reads-bad c hc rest (inl (omega arith))
    | no q ↦ elim (dec_lt c 224) [
      | yes r ↦ Reads-two c hc rest hr (omega arith) r
      | no r ↦ elim (dec_lt c 240) [
        | yes t ↦ Reads-three c hc rest hr (omega arith) t
        | no t ↦ elim (dec_lt c 248) [
          | yes u ↦ Reads-four c hc rest hr (omega arith) u
          | no u ↦ Reads-bad c hc rest (inr (omega arith))
        ]
      ]
    ]
  ]
]
