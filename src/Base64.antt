-- ===== src/Base64.antt =====
-- base64.c and include/jeffpc/base64.h. An input is the list of its bytes; an output is the list of the
-- bytes that are stored, from `out[0]` on, with nothing between them. The 32-bit value `v` stays below
-- 2 ^ 24, so no shift wraps.
pub mod Tables
mod Spec
pub mod Encode
mod Groups
pub mod Decode
pub mod RoundTrip
mod Tests
use libjeffpc.Base.{
  ℕ, zero, suc, ◌+◌, ◌-◌, ◌*◌, ◌/◌, ◌%◌, ◌^◌, Bool, true, false, ◌&&◌, Option, none, some, List, [],
  ◌∷◌, ◌++◌, bit_and, bit_or, ◌==◌, if◌then◌else◌, length, get_or, drop,
}
use Tables.{inv, at, b64_encode_table, b64url_encode_table, b64_decode_table, b64url_decode_table}

unfoldable pub base64_required_length : ℕ → ℕ
base64_required_length inlen = (inlen + 2) / 3 * 4

-- `table[(v >> shift) & 0x3f]`
abbrev pub sextet : List ℕ → ℕ → ℕ → ℕ
sextet table v shift = at table (bit_and (v / 2 ^ shift) 0x3f)

-- `in[i * 3 + k]`, where the list holds the input from `in[i * 3]` on.
abbrev pub byte_at : List ℕ → ℕ → ℕ
byte_at input k = get_or input k 0

-- `k` groups are left.
unfoldable pub encode_groups : List ℕ → ℕ → List ℕ → List ℕ
encode_groups table zero input = []
encode_groups table (suc k) input =
    let v =
      bit_or (bit_or (byte_at input 0 * 2 ^ 16) (byte_at input 1 * 2 ^ 8)) (byte_at input 2) in
    sextet table v 18
    ∷ sextet table v 12
    ∷ sextet table v 6
    ∷ sextet table v 0
    ∷ encode_groups table k (drop 3 input)

-- The `switch` on `inlen % 3`.
unfoldable pub encode_tail : List ℕ → ℕ → List ℕ → List ℕ
encode_tail table n input =
    if (n == 0)
    then 0 ∷ []
    else if (n == 1)
    then (let v = byte_at input 0 * 2 ^ 4 in
        sextet table v 6 ∷ sextet table v 0 ∷ b'=' ∷ b'=' ∷ 0 ∷ [])
    else (let v = bit_or (byte_at input 0 * 2 ^ 8) (byte_at input 1) * 2 ^ 2 in
        sextet table v 12 ∷ sextet table v 6 ∷ sextet table v 0 ∷ b'=' ∷ 0 ∷ [])

unfoldable pub b64_encode : List ℕ → List ℕ → List ℕ
b64_encode table input =
    let groups = length input / 3 in
    encode_groups table groups input
    ++ encode_tail table (length input % 3) (drop (groups * 3) input)

unfoldable pub base64_encode : List ℕ → List ℕ
base64_encode = b64_encode b64_encode_table

unfoldable pub base64url_encode : List ℕ → List ℕ
base64url_encode = b64_encode b64url_encode_table

unfoldable pub check_inv : ℕ → ℕ → ℕ → ℕ → Bool
check_inv a b c d = bit_or (bit_or (bit_or a b) c) d == inv

-- `table[in[k]]`
abbrev pub value_at : List ℕ → List ℕ → ℕ → ℕ
value_at table input k = at table (byte_at input k)

-- The loop over the groups without padding, `k` of them left. `none` is the return of -1; what was
-- stored till then is not told.
unfoldable pub decode_groups : List ℕ → ℕ → List ℕ → Option (List ℕ)
decode_groups table zero input = some []
decode_groups table (suc k) input =
    let a = value_at table input 0 in
    let b = value_at table input 1 in
    let c = value_at table input 2 in
    let d = value_at table input 3 in
    let v = bit_or (bit_or (bit_or (a * 2 ^ 18) (b * 2 ^ 12)) (c * 2 ^ 6)) d in
    elim (check_inv a b c d) [
      | true ↦ none
      | false ↦ elim (decode_groups table k (drop 4 input)) [
        | none ↦ none
        | some out ↦
            some (bit_and (v / 2 ^ 16) 0xff ∷ bit_and (v / 2 ^ 8) 0xff ∷ bit_and v 0xff ∷ out)
      ]
    ]

-- What follows the loop, on the last four characters `p q r s` of the input: what is returned, and
-- the bytes that are stored behind those of the loop.
unfoldable pub decode_last : List ℕ → ℕ → ℕ → ℕ → ℕ → ℕ → Option (ℕ × List ℕ)
decode_last table groups p q r s =
    let a = at table p in
    let b = at table q in
    let c = at table r in
    if (r == b'=') && (s == b'=')
    then (let v = bit_or (a * 2 ^ 6) b / 2 ^ 4 in
        if check_inv a b 0 0 then none else some (groups * 3 + 1, bit_and v 0xff ∷ []))
    else if (s == b'=')
    then (let v = bit_or (bit_or (a * 2 ^ 12) (b * 2 ^ 6)) c / 2 ^ 2 in
        if check_inv a b c 0
        then none
        else some (groups * 3 + 2, bit_and (v / 2 ^ 8) 0xff ∷ bit_and v 0xff ∷ []))
    else some (groups * 3, [])

abbrev pub decode_tail : List ℕ → ℕ → List ℕ → Option (ℕ × List ℕ)
decode_tail table groups input =
    let inlen = length input in
    decode_last table groups (byte_at input (inlen - 4)) (byte_at input (inlen - 3))
      (byte_at input (inlen - 2)) (byte_at input (inlen - 1))

-- The bytes of the tail stand behind those of the loop; a failure of either is the return of -1.
abbrev pub stored_behind : Option (List ℕ) → Option (ℕ × List ℕ) → Option (ℕ × List ℕ)
stored_behind none tail = none
stored_behind (some out) none = none
stored_behind (some out) (some (ret, last)) = some (ret, out ++ last)

-- The groups that the loop decodes: a last group with padding is none of them.
abbrev pub full_groups : ℕ → ℕ → ℕ
full_groups inlen last = if last == b'=' then inlen / 4 - 1 else inlen / 4

-- The returned length with the bytes stored, or `none` for -1.
unfoldable pub b64_decode : List ℕ → List ℕ → Option (ℕ × List ℕ)
b64_decode table input =
    let inlen = length input in
    let groups = full_groups inlen (byte_at input (inlen - 1)) in
    if (inlen == 0)
    then some (0, [])
    else if (inlen % 4 == 0)
    then stored_behind (decode_groups table groups input) (decode_tail table groups input)
    else none

unfoldable pub base64_decode : List ℕ → Option (ℕ × List ℕ)
base64_decode = b64_decode b64_decode_table

unfoldable pub base64url_decode : List ℕ → Option (ℕ × List ℕ)
base64url_decode = b64_decode b64url_decode_table
