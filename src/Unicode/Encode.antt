-- ===== src/Unicode/Encode.antt =====
-- The encoder writes UTF-8 at the start of the buffer.
use libjeffpc.Base.{
  ℕ, ◌+◌, ◌-◌, ◌*◌, ◌/◌, ◌%◌, ◌^◌, ◌≤◌, ◌<◌, ◌≡◌, refl, ◌∙◌, ap, ◌⊎◌, inl, inr, true, false, List,
  [], ◌∷◌, ◌++◌, arith, ◌==◌, if◌then◌else◌, ltb, length, drop, set, ok, err, einval, enomem,
  bit_and, bit_or, Bool-cases, all_below, eq_below, lt→ltb,
}
use libjeffpc.Base.Bits.{bit_and_low}
use native.Mathlib.Decide.{dec_lt}
use libjeffpc.Unicode.{utf32_is_valid, utf8_length, store_bytes, utf32_to_utf8}
use libjeffpc.Unicode.Spec.{IsScalar, utf8}
use libjeffpc.Unicode.Masks.{set_80}

-- A first byte: the high bits of the value under the mark of the length.
mark_two : (x : ℕ) → x < 32 → bit_or x (0xff * 2 ^ 6) % 256 ≡ 0xc0 + x
unfolding all_below
mark_two = eq_below 32 (λ x. bit_or x (0xff * 2 ^ 6) % 256) (λ x. 0xc0 + x) refl

mark_three : (x : ℕ) → x < 16 → bit_or x (0xff * 2 ^ 5) % 256 ≡ 0xe0 + x
unfolding all_below
mark_three = eq_below 16 (λ x. bit_or x (0xff * 2 ^ 5) % 256) (λ x. 0xe0 + x) refl

mark_four : (x : ℕ) → x < 8 → bit_or x (0xff * 2 ^ 4) % 256 ≡ 0xf0 + x
unfolding all_below
mark_four = eq_below 8 (λ x. bit_or x (0xff * 2 ^ 4) % 256) (λ x. 0xf0 + x) refl

tail_byte : (x : ℕ) → bit_or 0x80 (bit_and x 0x3f) ≡ 0x80 + x % 64
tail_byte x = rw (bit_and_low 6 x) (set_80 (x % 64) (omega arith))

-- The encoder behind its checks.
abbrev stores : ℕ → ℕ → List ℕ → List ℕ
stores len cp buf =
    if (len == 1)
    then set buf 0 (cp % 256)
    else (store_bytes (len - 1) cp 1
        (set buf 0 (bit_or (cp / 2 ^ (6 * (len - 1))) (0xff * 2 ^ (8 - len)) % 256)))

checks :
    (cp : ℕ) (buf : List ℕ)
    → utf32_is_valid cp ≡ true
    → utf32_to_utf8 cp buf ≡ (
        if ltb (length buf) (utf8_length cp)
        then err enomem
        else ok (utf8_length cp, stores (utf8_length cp) cp buf))
unfolding utf32_to_utf8
checks cp buf v = ground arith

length-utf8 : (cp : ℕ) → length (utf8 cp) ≡ utf8_length cp
unfolding utf8 utf8_length
length-utf8 cp = ground arith

stores_one :
    (cp : ℕ) (buf : List ℕ) → cp < 0x80 → 1 ≤ length buf → stores 1 cp buf ≡ cp ∷ drop 1 buf
stores_one cp [] p h = absurd (omega arith)
stores_one cp (a ∷ r) p h = ground arith

stores_two :
    (cp : ℕ) (buf : List ℕ)
    → cp < 0x800
    → 2 ≤ length buf
    → stores 2 cp buf ≡ (0xc0 + cp / 64) ∷ (0x80 + cp % 64) ∷ drop 2 buf
unfolding store_bytes
stores_two cp [] p h = absurd (omega arith)
stores_two cp (a ∷ []) p h = absurd (omega arith)
stores_two cp (a ∷ b ∷ r) p h = ground (arith, mark_two (cp / 64) (omega arith), tail_byte cp)

stores_three :
    (cp : ℕ) (buf : List ℕ)
    → cp < 0x10000
    → 3 ≤ length buf
    → stores 3 cp buf ≡ (0xe0 + cp / 4096) ∷ (0x80 + cp / 64 % 64) ∷ (0x80 + cp % 64) ∷ drop 3 buf
unfolding store_bytes
stores_three cp [] p h = absurd (omega arith)
stores_three cp (a ∷ []) p h = absurd (omega arith)
stores_three cp (a ∷ b ∷ []) p h = absurd (omega arith)
stores_three cp (a ∷ b ∷ c ∷ r) p h =
    ground (arith, mark_three (cp / 4096) (omega arith), tail_byte cp, tail_byte (cp / 64))

stores_four :
    (cp : ℕ) (buf : List ℕ)
    → cp ≤ 0x10ffff
    → 4 ≤ length buf
    → stores 4 cp buf
      ≡ (0xf0 + cp / 262144)
        ∷ (0x80 + cp / 4096 % 64)
        ∷ (0x80 + cp / 64 % 64)
        ∷ (0x80 + cp % 64)
        ∷ drop 4 buf
unfolding store_bytes
stores_four cp [] p h = absurd (omega arith)
stores_four cp (a ∷ []) p h = absurd (omega arith)
stores_four cp (a ∷ b ∷ []) p h = absurd (omega arith)
stores_four cp (a ∷ b ∷ c ∷ []) p h = absurd (omega arith)
stores_four cp (a ∷ b ∷ c ∷ d ∷ r) p h = ground (
  arith,
  mark_four (cp / 262144) (omega arith),
  tail_byte cp,
  tail_byte (cp / 64),
  tail_byte (cp / 4096),
)

stores-utf8 :
    (cp : ℕ) (buf : List ℕ)
    → cp ≤ 0x10ffff
    → utf8_length cp ≤ length buf
    → stores (utf8_length cp) cp buf ≡ utf8 cp ++ drop (utf8_length cp) buf
unfolding utf8 utf8_length
stores-utf8 cp buf p h =
    ground (arith, stores_one cp buf, stores_two cp buf, stores_three cp buf, stores_four cp buf)

scalar : (cp : ℕ) → utf32_is_valid cp ≡ true → IsScalar cp
unfolding utf32_is_valid
scalar cp v = ground arith

scalar_top : (cp : ℕ) → utf32_is_valid cp ≡ true → cp ≤ 0x10ffff
unfolding utf32_is_valid
scalar_top cp v = ground arith

not-IsScalar : (cp : ℕ) → utf32_is_valid cp ≡ false → ¬ IsScalar cp
unfolding utf32_is_valid
not-IsScalar cp v = ground arith

-- The encoder refuses what is no scalar value with EINVAL, a buffer too short for the UTF-8 sequence
-- with ENOMEM, and else writes just that sequence at the start of the buffer and returns its length.
pub utf32_to_utf8-utf8 :
    (cp : ℕ) (buf : List ℕ)
    → (¬ IsScalar cp × (utf32_to_utf8 cp buf ≡ err einval))
      ⊎ (IsScalar cp × (length buf < length (utf8 cp)) × (utf32_to_utf8 cp buf ≡ err enomem))
      ⊎ (IsScalar cp
          × (length (utf8 cp) ≤ length buf)
          × (utf32_to_utf8 cp buf ≡ ok (length (utf8 cp), utf8 cp ++ drop (length (utf8 cp)) buf)))
utf32_to_utf8-utf8 cp buf = elim (Bool-cases (utf32_is_valid cp)) [
  | inl v ↦ elim (dec_lt (length buf) (utf8_length cp)) [
    | yes short ↦
        let test : ltb (length buf) (utf8_length cp) ≡ true = lt→ltb _ _ short in
        inr (inl (scalar cp v, rw length-utf8 short, checks cp buf v ∙ rw test))
    | no fits ↦
        let test : ltb (length buf) (utf8_length cp) ≡ false = ground arith in
        inr (
          inr (
            scalar cp v,
            rw length-utf8 (omega arith),
            checks cp buf v
                ∙ rw (test, length-utf8 cp)
                    (ap (λ b. ok (utf8_length cp, b))
                      (stores-utf8 cp buf (scalar_top cp v) (omega arith))),
          ))
  ]
  | inr v ↦ inl (not-IsScalar cp v, unfold utf32_to_utf8 in (rw v))
]
