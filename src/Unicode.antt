-- ===== src/Unicode.antt =====
-- unicode.c and include/jeffpc/unicode.h: UTF-8 to code points and back. A C `char` is the number of
-- its byte, and a buffer is the list of its bytes. The 32-bit values stay below 2 ^ 24, so no shift
-- wraps.
mod Spec
mod Masks
pub mod Encode
pub mod Decode
pub mod Strings
mod Tests
use libjeffpc.Base.{
  ℕ, zero, suc, ◌+◌, ◌-◌, ◌*◌, ◌/◌, ◌%◌, ◌^◌, Bool, true, false, ◌&&◌, not, Option, none, some,
  List, [], ◌∷◌, Result, ok, err, einval, enomem, eilseq, bit_and, bit_or, ltb, leb, ◌==◌,
  if◌then◌else◌, length, set, drop,
}

unfoldable pub utf32_is_valid : ℕ → Bool
utf32_is_valid cp = if leb 0xd800 cp && leb cp 0xdfff then false else leb cp 0x10ffff

-- What the first byte of a sequence says.
pub record Lead : Type 0 where
  pub len : ℕ
  pub res : ℕ
  pub mincp : ℕ
  pub maxcp : ℕ

unfoldable pub lead_byte : ℕ → Option Lead
lead_byte c =
    if (bit_and c 0xf8 == 0xf0)
    then some
        (record { len = 4; res = bit_and c 0x07 * 2 ^ 18; mincp = 0x010000; maxcp = 0x10ffff })
    else if (bit_and c 0xf0 == 0xe0)
    then some (record { len = 3; res = bit_and c 0x0f * 2 ^ 12; mincp = 0x0800; maxcp = 0xffff })
    else if (bit_and c 0xe0 == 0xc0)
    then some (record { len = 2; res = bit_and c 0x1f * 2 ^ 6; mincp = 0x080; maxcp = 0x7ff })
    else if (bit_and c 0x80 == 0x00)
    then some (record { len = 1; res = bit_and c 0x7f; mincp = 0x00; maxcp = 0x7f })
    else none

-- The loop over the other bytes. `k` rounds are left, which is `len - i`, and the list is the input
-- from `in[i]` on. It has `k` bytes at least, since `len > inlen` is tested before.
unfoldable pub more_bytes : ℕ → List ℕ → ℕ → Option ℕ
more_bytes zero rest res = some res
more_bytes (suc k) [] res = none
more_bytes (suc k) (c ∷ rest) res = elim (bit_and c 0xc0 == 0x80) [
  | true ↦ more_bytes k rest (bit_or res (bit_and c 0x3f * 2 ^ (6 * k)))
  | false ↦ none
]

-- The final checks.
unfoldable pub check_range : Lead → ℕ → ℕ × Option ℕ
unfolding utf32_is_valid
check_range l res =
    if ltb res l.mincp
    then (0, none)
    else if ltb l.maxcp res
    then (0, none)
    else if not (utf32_is_valid res)
    then (0, none)
    else (l.len, some res)

-- The returned length, 0 for bad input, and what is stored through `out`.
unfoldable pub utf8_to_utf32 : List ℕ → ℕ × Option ℕ
utf8_to_utf32 [] = (0, none)
utf8_to_utf32 (c ∷ rest) = elim (lead_byte c) [
  | none ↦ (0, none)
  | some l ↦
      if ltb (suc (length rest)) l.len
      then (0, none)
      else elim (more_bytes (l.len - 1) rest l.res) [
        | none ↦ (0, none)
        | some res ↦ check_range l res
      ]
]

unfoldable pub utf8_length : ℕ → ℕ
utf8_length cp =
    if leb cp 0x7f then 1 else if leb cp 0x7ff then 2 else if leb cp 0xffff then 3 else 4

-- The loop that stores the second to the last byte: `k` rounds are left, which is `len - i`.
unfoldable pub store_bytes : ℕ → ℕ → ℕ → List ℕ → List ℕ
store_bytes zero cp i buf = buf
store_bytes (suc k) cp i buf =
    store_bytes k cp (i + 1) (set buf i (bit_or 0x80 (bit_and (cp / 2 ^ (6 * k)) 0x3f)))

-- A stored `char` is the low byte of its value. The buffer has `buflen` bytes.
unfoldable pub utf32_to_utf8 : ℕ → List ℕ → Result (ℕ × List ℕ)
utf32_to_utf8 cp buf =
    if not (utf32_is_valid cp)
    then err einval
    else (let len = utf8_length cp in
        if ltb (length buf) len
        then err enomem
        else if (len == 1)
        then ok (1, set buf 0 (cp % 256))
        else (let first = bit_or (cp / 2 ^ (6 * (len - 1))) (0xff * 2 ^ (8 - len)) % 256 in
            ok (len, store_bytes (len - 1) cp 1 (set buf 0 first))))

-- The loop of `utf8_is_valid_str` over the bytes from `src + i` on. A round takes a byte at least, so
-- as many rounds as there are bytes are enough; `none` says that they were not.
unfoldable pub valid_loop : ℕ → List ℕ → Option (Result (Unit {0}))
valid_loop fuel [] = some (ok tt)
valid_loop zero (c ∷ rest) = none
valid_loop (suc fuel) (c ∷ rest) =
    let (cplen, cp) = utf8_to_utf32 (c ∷ rest) in
    let next = valid_loop fuel (drop cplen (c ∷ rest)) in
    if (cplen == 0) then some (err eilseq) else next

unfoldable pub utf8_is_valid_str : List ℕ → Option (Result (Unit {0}))
unfolding valid_loop
utf8_is_valid_str src = valid_loop (length src) src
