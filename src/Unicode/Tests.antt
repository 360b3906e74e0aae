-- ===== src/Unicode/Tests.antt =====
-- Runs of the encoder and the decoder, and their theorems at concrete inputs.
use libjeffpc.Base.{
  ℕ, ◌≤◌, ◌≡◌, refl, ◌⊎◌, inl, some, none, List, [], ◌∷◌, ◌++◌, arith, length, drop, ok, err,
  einval, enomem, eilseq, ◌<◌,
}
use libjeffpc.Unicode.{
  utf8_to_utf32, utf32_to_utf8, utf8_is_valid_str, lead_byte, more_bytes, check_range,
  utf32_is_valid, utf8_length, store_bytes,
}
use libjeffpc.Unicode.Spec.{IsScalar, utf8}
use libjeffpc.Unicode.Decode.{Reads, utf8_to_utf32-utf8, utf8_to_utf32-Reads}
use libjeffpc.Unicode.Encode.{utf32_to_utf8-utf8}
use libjeffpc.Unicode.Strings.{Validated, utf8_is_valid_str-Validated}

-- U+20AC, the euro sign.
abbrev euro : List ℕ
euro = 0xe2 ∷ 0x82 ∷ 0xac ∷ []

writes_euro : utf32_to_utf8 0x20ac (0 ∷ 0 ∷ 0 ∷ 7 ∷ []) ≡ ok (3, 0xe2 ∷ 0x82 ∷ 0xac ∷ 7 ∷ [])
unfolding utf32_to_utf8 utf32_is_valid utf8_length store_bytes
writes_euro = refl

reads_euro : utf8_to_utf32 euro ≡ (3, some 0x20ac)
unfolding utf8_to_utf32 lead_byte more_bytes check_range
reads_euro = refl

refuses_overlong : utf8_to_utf32 (0xc0 ∷ 0x80 ∷ []) ≡ (0, none)
unfolding utf8_to_utf32 lead_byte more_bytes check_range
refuses_overlong = refl

refuses_surrogate : utf8_is_valid_str (0xed ∷ 0xa0 ∷ 0x80 ∷ []) ≡ some (err eilseq)
unfolding utf8_is_valid_str utf8_to_utf32 lead_byte more_bytes check_range
refuses_surrogate = refl

utf8_to_utf32-utf8_example :
    utf8_to_utf32 (utf8 0x20ac ++ 65 ∷ []) ≡ (length (utf8 0x20ac), some 0x20ac)
utf8_to_utf32-utf8_example = utf8_to_utf32-utf8 0x20ac (65 ∷ []) (inl (omega arith)) (omega arith)

utf8_to_utf32-Reads_example : Reads euro (utf8_to_utf32 euro)
utf8_to_utf32-Reads_example = utf8_to_utf32-Reads euro (omega arith)

utf32_to_utf8-utf8_example :
    (¬ IsScalar 0x20ac × (utf32_to_utf8 0x20ac (0 ∷ []) ≡ err einval))
    ⊎ (IsScalar 0x20ac × (1 < length (utf8 0x20ac)) × (utf32_to_utf8 0x20ac (0 ∷ []) ≡ err enomem))
    ⊎ (IsScalar 0x20ac
        × (length (utf8 0x20ac) ≤ 1)
        × (utf32_to_utf8 0x20ac (0 ∷ [])
            ≡ ok (length (utf8 0x20ac), utf8 0x20ac ++ drop (length (utf8 0x20ac)) (0 ∷ []))))
utf32_to_utf8-utf8_example = utf32_to_utf8-utf8 0x20ac (0 ∷ [])

utf8_is_valid_str-Validated_example : Validated euro (utf8_is_valid_str euro)
utf8_is_valid_str-Validated_example = utf8_is_valid_str-Validated euro (omega arith)
