-- ===== src/Base64/Tests.antt =====
-- Runs of the coder and the decoder, and their theorems at concrete inputs.
use libjeffpc.Base.{
  ◌+◌, ◌*◌, ◌≤◌, ◌≡◌, refl, some, none, [], ◌∷◌, ◌++◌, codes, arith, length, take, inl,
}
use libjeffpc.Base64.{
  base64_encode, base64_decode, base64url_encode, base64url_decode, base64_required_length,
  b64_encode, b64_decode, encode_groups, encode_tail, decode_groups, decode_last, check_inv,
}
use libjeffpc.Base64.Tables.{b64_encode_table, b64_decode_table, b64-Alphabet}
use libjeffpc.Base64.Spec.{text, bytes}
use libjeffpc.Base64.Encode.{length-base64_encode, b64_encode-text}
use libjeffpc.Base64.Decode.{b64_decode-bytes, counted}
use libjeffpc.Base64.RoundTrip.{base64_decode-base64_encode, base64_decode_fits}

encodes_foob : base64_encode (codes "foob") ≡ codes "Zm9vYg==" ++ 0 ∷ []
unfolding base64_encode b64_encode encode_groups encode_tail
encodes_foob = refl

decodes_foob : base64_decode (codes "Zm9vYg==") ≡ some (4, codes "foob")
unfolding base64_decode b64_decode decode_groups decode_last check_inv
decodes_foob = refl

refuses_pad_inside : base64_decode (codes "Zm9=Yg==") ≡ none
unfolding base64_decode b64_decode decode_groups decode_last check_inv
refuses_pad_inside = refl

-- The bits of the last character that no byte takes are not looked at.
ignores_spare_bits : base64_decode (codes "Zm9vYh==") ≡ some (4, codes "foob")
unfolding base64_decode b64_decode decode_groups decode_last check_inv
ignores_spare_bits = refl

b64_encode-text_example :
    b64_encode b64_encode_table (codes "foob") ≡ text b64_encode_table (codes "foob") ++ 0 ∷ []
b64_encode-text_example = b64_encode-text b64_encode_table (codes "foob") (omega arith)

length-base64_encode_example :
    (length (base64_encode (codes "foob")) ≡ base64_required_length 4 + 1)
    × (length (base64url_encode (codes "foob")) ≡ base64_required_length 4 + 1)
length-base64_encode_example = length-base64_encode (codes "foob") (omega arith)

b64_decode-bytes_example :
    b64_decode b64_decode_table (codes "Zm9vYg==")
    ≡ counted (bytes b64_decode_table (codes "Zm9vYg=="))
b64_decode-bytes_example =
    b64_decode-bytes b64_decode_table b64-Alphabet.table (codes "Zm9vYg==") (omega arith)

base64_decode-base64_encode_example :
    (base64_decode (take (base64_required_length 4) (base64_encode (codes "foob")))
      ≡ some (4, codes "foob"))
    × (base64url_decode (take (base64_required_length 4) (base64url_encode (codes "foob")))
        ≡ some (4, codes "foob"))
base64_decode-base64_encode_example = base64_decode-base64_encode (codes "foob") (omega arith)

base64_decode_fits_example : (4 ≡ length (codes "foob")) × (4 * 4 ≤ 3 * length (codes "Zm9vYg=="))
base64_decode_fits_example =
    base64_decode_fits (codes "Zm9vYg==") (codes "foob") 4 (omega arith) (inl decodes_foob)
