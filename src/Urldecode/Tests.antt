-- ===== src/Urldecode/Tests.antt =====
-- Runs of the decoder, and its theorems at concrete inputs.
use libjeffpc.Base.{ℕ, ◌≡◌, refl, some, none, List, [], ◌∷◌, codes, arith, replicate}
use libjeffpc.Base.{ok, err, einval, eilseq}
use libjeffpc.Urldecode.{urldecode, escape_digit}
use libjeffpc.Urldecode.Spec.{percent_decode}
use libjeffpc.Urldecode.Decodes.{Decoded, urldecode-Decoded}

abbrev room : List ℕ
room = replicate 8 0

decodes_escapes :
    urldecode (some (codes "a%2Fb+%c3")) (some room)
    ≡ ok (5, b'a' ∷ b'/' ∷ b'b' ∷ b' ' ∷ 0xc3 ∷ 0 ∷ 0 ∷ 0 ∷ [])
unfolding urldecode escape_digit
decodes_escapes = refl

refuses_cut : urldecode (some (codes "a%2")) (some room) ≡ err eilseq
unfolding urldecode escape_digit
refuses_cut = refl

refuses_null : urldecode (some (codes "a")) none ≡ err einval
unfolding urldecode
refuses_null = refl

urldecode-Decoded_example :
    Decoded (percent_decode (codes "a%2Fb")) 5 0 room (urldecode (some (codes "a%2Fb")) (some room))
urldecode-Decoded_example = urldecode-Decoded (codes "a%2Fb") room (omega arith) (omega arith)
