-- ===== src/Base64/Encode.antt =====
-- The coder writes the Base64 text of its input and a NUL.
use libjeffpc.Base.{
  ℕ, suc, ◌+◌, ◌*◌, ◌/◌, ◌%◌, ◌^◌, ◌<◌, ◌≡◌, refl, ap, ◌∙◌, List, [], ◌∷◌, ◌++◌, arith, bit_and,
  bit_or, length, All, IsByte, length-append,
}
use libjeffpc.Base.Bits.{bit_and_low, bit_or_high}
use libjeffpc.Base64.{
  base64_required_length, encode_groups, encode_tail, b64_encode, base64_encode, base64url_encode,
}
use libjeffpc.Base64.Tables.{at, b64_encode_table, b64url_encode_table}
use libjeffpc.Base64.Spec.{text}

two_bytes : (a b : ℕ) → b < 256 → bit_or (a * 2 ^ 8) b ≡ a * 256 + b
two_bytes a b h = bit_or_high 8 a b h

pub three_bytes_joined :
    (a b c : ℕ)
    → b < 256
    → c < 256
    → bit_or (bit_or (a * 2 ^ 16) (b * 2 ^ 8)) c ≡ a * 65536 + b * 256 + c
three_bytes_joined a b c hb hc =
    ap (λ (t : ℕ). bit_or t c) (bit_or_high 16 a (b * 2 ^ 8) (omega arith) ∙ omega arith)
    ∙ bit_or_high 8 (a * 256 + b) c hc
    ∙ omega arith

module _ (enc : List ℕ) where
  -- A sextet that is known in arithmetic.
  six : (v k x : ℕ) → v / 2 ^ k % 64 ≡ x → at enc (bit_and (v / 2 ^ k) 0x3f) ≡ at enc x
  six v k x e = ap (at enc) (bit_and_low 6 (v / 2 ^ k) ∙ e)

  encode_step :
      (a b c : ℕ) (rest : List ℕ)
      → IsByte a
      → IsByte b
      → IsByte c
      → b64_encode enc (a ∷ b ∷ c ∷ rest)
        ≡ at enc (a / 4)
          ∷ at enc (a % 4 * 16 + b / 16)
          ∷ at enc (b % 16 * 4 + c / 64)
          ∷ at enc (c % 64)
          ∷ b64_encode enc rest
  unfolding b64_encode encode_groups
  encode_step a b c rest ha hb hc =
      let n = length rest in
      let count : suc (suc (suc n)) / 3 ≡ suc (n / 3) = omega arith in
      let left : suc (suc (suc n)) % 3 ≡ n % 3 = omega arith in
      let skip : suc (n / 3) * 3 ≡ suc (suc (suc (n / 3 * 3))) = omega arith in
      let v = a * 65536 + b * 256 + c in
      rw (
        count,
        left,
        skip,
        three_bytes_joined a b c hb hc,
        six v 18 (a / 4) (omega arith),
        six v 12 (a % 4 * 16 + b / 16) (omega arith),
        six v 6 (b % 16 * 4 + c / 64) (omega arith),
        six v 0 (c % 64) (omega arith),
      )

  encode_one :
      (a : ℕ)
      → IsByte a
      → b64_encode enc (a ∷ []) ≡ at enc (a / 4) ∷ at enc (a % 4 * 16) ∷ b'=' ∷ b'=' ∷ 0 ∷ []
  unfolding b64_encode encode_groups encode_tail
  encode_one a ha =
      rw (six (a * 2 ^ 4) 6 (a / 4) (omega arith), six (a * 2 ^ 4) 0 (a % 4 * 16) (omega arith))

  encode_two :
      (a b : ℕ)
      → IsByte a
      → IsByte b
      → b64_encode enc (a ∷ b ∷ [])
        ≡ at enc (a / 4) ∷ at enc (a % 4 * 16 + b / 16) ∷ at enc (b % 16 * 4) ∷ b'=' ∷ 0 ∷ []
  unfolding b64_encode encode_groups encode_tail
  encode_two a b ha hb =
      let v = (a * 256 + b) * 2 ^ 2 in
      rw (
        two_bytes a b hb,
        six v 12 (a / 4) (omega arith),
        six v 6 (a % 4 * 16 + b / 16) (omega arith),
        six v 0 (b % 16 * 4) (omega arith),
      )

  -- On byte inputs the coder writes the Base64 text and the terminating NUL behind it.
  pub b64_encode-text :
      (input : List ℕ) → All IsByte input → b64_encode enc input ≡ text enc input ++ 0 ∷ []
  unfolding text
  b64_encode-text [] h = unfold b64_encode encode_groups encode_tail in refl
  b64_encode-text (a ∷ []) (ha, _) = encode_one a ha
  b64_encode-text (a ∷ b ∷ []) (ha, (hb, _)) = encode_two a b ha hb
  b64_encode-text (a ∷ b ∷ c ∷ rest) (ha, (hb, (hc, h))) =
      encode_step a b c rest ha hb hc ∙ rw (b64_encode-text rest h)

pub length-text :
    (enc input : List ℕ) → length (text enc input) ≡ base64_required_length (length input)
unfolding text base64_required_length
length-text enc [] = refl
length-text enc (a ∷ []) = refl
length-text enc (a ∷ b ∷ []) = refl
length-text enc (a ∷ b ∷ c ∷ rest) = omega (arith, length-text enc rest)

-- `base64_required_length` bytes and one for the NUL are what both coders write, for every input.
pub length-base64_encode :
    (input : List ℕ)
    → All IsByte input
    → (length (base64_encode input) ≡ base64_required_length (length input) + 1)
      × (length (base64url_encode input) ≡ base64_required_length (length input) + 1)
unfolding base64_encode base64url_encode
length-base64_encode input h = (size b64_encode_table, size b64url_encode_table)
  where
    size :
        (enc : List ℕ) → length (b64_encode enc input) ≡ base64_required_length (length input) + 1
    size enc = rw (
      b64_encode-text enc input h,
      length-append (text enc input) (0 ∷ []),
      length-text enc input,
    )
