-- ===== src/Base64/RoundTrip.antt =====
-- Decoding what was encoded.
use libjeffpc.Base.{
  ℕ, ◌+◌, ◌*◌, ◌/◌, ◌%◌, ◌≤◌, ◌≡◌, ◌≢◌, refl, sym, ap, ◌∙◌, Option, none, some, List, [], ◌∷◌, ◌++◌,
  arith, length, All, IsByte, take, take-append, length-append, ◌⊎◌, inl, inr,
}
use libjeffpc.Base64.{
  b64_encode, b64_decode, base64_encode, base64_decode, base64url_encode, base64url_decode,
  base64_required_length,
}
use libjeffpc.Base64.Tables.{at, Alphabet, IsDecodeTable, b64-Alphabet, b64url-Alphabet}
use libjeffpc.Base64.Spec.{text, bytes, whole_group, both}
use libjeffpc.Base64.Encode.{b64_encode-text, length-text}
use libjeffpc.Base64.Decode.{b64_decode-bytes, counted, whole_group_three}

module _ (enc dec : List ℕ) (alpha : Alphabet enc dec) where
  group_back :
      (a b c : ℕ)
      → IsByte a
      → IsByte b
      → IsByte c
      → whole_group dec
          (at enc (a / 4))
          (at enc (a % 4 * 16 + b / 16))
          (at enc (b % 16 * 4 + c / 64))
          (at enc (c % 64))
        ≡ some (a ∷ b ∷ c ∷ [])
  group_back a b c ha hb hc =
      rw
        (
          alpha.inverse (a / 4) (omega arith),
          alpha.inverse (a % 4 * 16 + b / 16) (omega arith),
          alpha.inverse (b % 16 * 4 + c / 64) (omega arith),
          alpha.inverse (c % 64) (omega arith),
        )
        (ground arith)

  bytes_one : (a : ℕ) → IsByte a → bytes dec (text enc (a ∷ [])) ≡ some (a ∷ [])
  unfolding bytes text
  bytes_one a ha =
      rw (alpha.inverse (a / 4) (omega arith), alpha.inverse (a % 4 * 16) (omega arith))
        (ground arith)

  bytes_two :
      (a b : ℕ) → IsByte a → IsByte b → bytes dec (text enc (a ∷ b ∷ [])) ≡ some (a ∷ b ∷ [])
  unfolding bytes text
  bytes_two a b ha hb =
      rw
        (
          alpha.inverse (a / 4) (omega arith),
          alpha.inverse (a % 4 * 16 + b / 16) (omega arith),
          alpha.inverse (b % 16 * 4) (omega arith),
        )
        (ground (arith, alpha.not_pad (b % 16 * 4)))

  bytes_group :
      (a b c d : ℕ) (rest : List ℕ)
      → d ≢ b'='
      → bytes dec (a ∷ b ∷ c ∷ d ∷ rest) ≡ both (whole_group dec a b c d) (bytes dec rest)
  unfolding bytes
  bytes_group a b c d [] h = ground arith
  bytes_group a b c d (e ∷ rest) h = refl

  text_step :
      (a b c : ℕ) (rest : List ℕ)
      → bytes dec (text enc (a ∷ b ∷ c ∷ rest))
        ≡ bytes dec (
            at enc (a / 4)
            ∷ at enc (a % 4 * 16 + b / 16)
            ∷ at enc (b % 16 * 4 + c / 64)
            ∷ at enc (c % 64)
            ∷ text enc rest)
  unfolding text
  text_step a b c rest = refl

  bytes-text : (input : List ℕ) → All IsByte input → bytes dec (text enc input) ≡ some input
  bytes-text [] h = unfold bytes text in refl
  bytes-text (a ∷ []) (ha, _) = bytes_one a ha
  bytes-text (a ∷ b ∷ []) (ha, (hb, _)) = bytes_two a b ha hb
  bytes-text (a ∷ b ∷ c ∷ rest) (ha, (hb, (hc, h))) =
      text_step a b c rest
      ∙ bytes_group _ _ _ _ (text enc rest) (alpha.not_pad (c % 64) (omega arith))
      ∙ rw (group_back a b c ha hb hc, bytes-text rest h)

  text-IsByte : (input : List ℕ) → All IsByte input → All IsByte (text enc input)
  unfolding text
  text-IsByte [] h = tt
  text-IsByte (a ∷ []) (ha, _) =
      (alpha.bytes (a / 4) (omega arith), (alpha.bytes (a % 4 * 16) (omega arith), omega arith))
  text-IsByte (a ∷ b ∷ []) (ha, (hb, _)) = (
    alpha.bytes (a / 4) (omega arith),
    (
      alpha.bytes (a % 4 * 16 + b / 16) (omega arith),
      (alpha.bytes (b % 16 * 4) (omega arith), omega arith),
    ),
  )
  text-IsByte (a ∷ b ∷ c ∷ rest) (ha, (hb, (hc, h))) = (
    alpha.bytes (a / 4) (omega arith),
    (
      alpha.bytes (a % 4 * 16 + b / 16) (omega arith),
      (
        alpha.bytes (b % 16 * 4 + c / 64) (omega arith),
        (alpha.bytes (c % 64) (omega arith), text-IsByte rest h),
      ),
    ),
  )

  -- Without its NUL, the coder's output decodes to the input.
  b64_decode-b64_encode :
      (input : List ℕ)
      → All IsByte input
      → b64_decode dec (take (base64_required_length (length input)) (b64_encode enc input))
        ≡ some (length input, input)
  b64_decode-b64_encode input h =
      rw
        (
          b64_encode-text enc input h,
          ← length-text enc input,
          take-append (text enc input) (0 ∷ []),
        )
        (b64_decode-bytes dec alpha.table (text enc input) (text-IsByte input h)
          ∙ ap counted (bytes-text input h))

-- For each of the two alphabets: what the coder writes for any bytes, without its NUL, the decoder
-- takes, stores those bytes again and returns their number.
pub base64_decode-base64_encode :
    (input : List ℕ)
    → All IsByte input
    → (base64_decode (take (base64_required_length (length input)) (base64_encode input))
        ≡ some (length input, input))
      × (base64url_decode (take (base64_required_length (length input)) (base64url_encode input))
          ≡ some (length input, input))
unfolding base64_encode base64_decode base64url_encode base64url_decode
base64_decode-base64_encode input h = (
  b64_decode-b64_encode _ _ b64-Alphabet input h,
  b64_decode-b64_encode _ _ b64url-Alphabet input h,
)

-- What a text decodes to fits into three bytes for each four characters.
both_size :
    (g r : Option (List ℕ)) (out : List ℕ)
    → (g ≡ none) ⊎ ((t : List ℕ) × (g ≡ some t) × (length t ≡ 3))
    → both g r ≡ some out
    → (s : List ℕ) × (r ≡ some s) × (length out ≡ 3 + length s)
both_size none r out h e = cc
both_size (some g) none out h e = cc
both_size (some g) (some s) out (inl p) e = cc
both_size (some g) (some s) out (inr (t, p, l)) e =
    let three : length g ≡ 3 = cc in
    let size : length out ≡ length (g ++ s) = cc in
    (s, refl, size ∙ length-append g s ∙ ap (λ (n : ℕ). n + length s) three)

bytes_fit :
    (dec input out : List ℕ) → bytes dec input ≡ some out → 4 * length out ≤ 3 * length input
unfolding bytes
bytes_fit dec [] out e = ground arith
bytes_fit dec (a ∷ []) out e = cc
bytes_fit dec (a ∷ b ∷ []) out e = cc
bytes_fit dec (a ∷ b ∷ c ∷ []) out e = cc
bytes_fit dec (a ∷ b ∷ c ∷ d ∷ []) out e = ground arith
bytes_fit dec (a ∷ b ∷ c ∷ d ∷ x ∷ rest) out e =
    let (s, es, l) =
      both_size (whole_group dec a b c d) (bytes dec (x ∷ rest)) out (whole_group_three dec a b c d)
        e in
    omega (arith, bytes_fit dec (x ∷ rest) s es)

-- For each of the two alphabets: where the decoder does not return -1, it returns the number of the
-- bytes that it stored, three for each four characters of the input at most.
pub base64_decode_fits :
    (input out : List ℕ) (n : ℕ)
    → All IsByte input
    → (base64_decode input ≡ some (n, out)) ⊎ (base64url_decode input ≡ some (n, out))
    → (n ≡ length out) × (4 * n ≤ 3 * length input)
unfolding base64_decode base64url_decode
base64_decode_fits input out n h = elim [
  | inl e ↦ fits _ b64-Alphabet.table e
  | inr e ↦ fits _ b64url-Alphabet.table e
]
  where
    size : (r : Option (List ℕ)) → counted r ≡ some (n, out) → (r ≡ some out) × (n ≡ length out)
    size none e = cc
    size (some o) e = ground arith

    fits :
        (dec : List ℕ)
        → IsDecodeTable dec
        → b64_decode dec input ≡ some (n, out)
        → (n ≡ length out) × (4 * n ≤ 3 * length input)
    fits dec ok e =
        let (found, count) = size (bytes dec input) (sym (b64_decode-bytes dec ok input h) ∙ e) in
        (count, omega (arith, bytes_fit dec input out found))
