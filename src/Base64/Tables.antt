-- ===== src/Base64/Tables.antt =====
-- The tables of base64.c (RFC 4648), and what the coder and the decoder rely on.
use libjeffpc.Base.{
  ℕ, ◌+◌, ◌<◌, ◌≡◌, ◌≢◌, refl, ◌⊎◌, Bool, true, not, ◌&&◌, ◌||◌, List, ◌∷◌, ◌++◌, arith, ltb, ◌==◌,
  get_or, replicate, codes, all_below, all_below_sound,
}

-- `INV`, the mark of a character that stands for nothing.
abbrev pub inv : ℕ
inv = 0xff

abbrev pub b64_encode_table : List ℕ
b64_encode_table =
    codes "ABCDEFGHIJKLMNOPQRSTUVWXYZ" ++ codes "abcdefghijklmnopqrstuvwxyz" ++ codes "0123456789+/"

abbrev pub b64url_encode_table : List ℕ
b64url_encode_table =
    codes "ABCDEFGHIJKLMNOPQRSTUVWXYZ" ++ codes "abcdefghijklmnopqrstuvwxyz" ++ codes "0123456789-_"

-- A row of the table that holds the eight entries from `n` on.
abbrev row : ℕ → List ℕ → List ℕ
row n rest = n ∷ (n + 1) ∷ (n + 2) ∷ (n + 3) ∷ (n + 4) ∷ (n + 5) ∷ (n + 6) ∷ (n + 7) ∷ rest

-- A row of nothing but INV.
abbrev inv_row : List ℕ → List ℕ
inv_row rest = inv ∷ inv ∷ inv ∷ inv ∷ inv ∷ inv ∷ inv ∷ inv ∷ rest

abbrev pub b64_decode_table : List ℕ
b64_decode_table = inv_row (
    inv_row (
      inv_row (
        inv_row (
          inv_row (
            inv
            ∷ inv
            ∷ inv
            ∷ 0x3e
            ∷ inv
            ∷ inv
            ∷ inv
            ∷ 0x3f
            ∷ row 0x34 (
                0x3c
                ∷ 0x3d
                ∷ inv
                ∷ inv
                ∷ inv
                ∷ inv
                ∷ inv
                ∷ inv
                ∷ inv
                ∷ 0x00
                ∷ 0x01
                ∷ 0x02
                ∷ 0x03
                ∷ 0x04
                ∷ 0x05
                ∷ 0x06
                ∷ row 0x07 (
                    row 0x0f (
                      0x17
                      ∷ 0x18
                      ∷ 0x19
                      ∷ inv
                      ∷ inv
                      ∷ inv
                      ∷ inv
                      ∷ inv
                      ∷ inv
                      ∷ 0x1a
                      ∷ 0x1b
                      ∷ 0x1c
                      ∷ 0x1d
                      ∷ 0x1e
                      ∷ 0x1f
                      ∷ 0x20
                      ∷ row 0x21 (
                          row 0x29 (
                            0x31
                            ∷ 0x32
                            ∷ 0x33
                            ∷ inv
                            ∷ inv
                            ∷ inv
                            ∷ inv
                            ∷ inv
                            ∷ replicate 128 inv))))))))))

abbrev pub b64url_decode_table : List ℕ
b64url_decode_table = inv_row (
    inv_row (
      inv_row (
        inv_row (
          inv_row (
            inv
            ∷ inv
            ∷ inv
            ∷ inv
            ∷ inv
            ∷ 0x3e
            ∷ inv
            ∷ inv
            ∷ row 0x34 (
                0x3c
                ∷ 0x3d
                ∷ inv
                ∷ inv
                ∷ inv
                ∷ inv
                ∷ inv
                ∷ inv
                ∷ inv
                ∷ 0x00
                ∷ 0x01
                ∷ 0x02
                ∷ 0x03
                ∷ 0x04
                ∷ 0x05
                ∷ 0x06
                ∷ row 0x07 (
                    row 0x0f (
                      0x17
                      ∷ 0x18
                      ∷ 0x19
                      ∷ inv
                      ∷ inv
                      ∷ inv
                      ∷ inv
                      ∷ 0x3f
                      ∷ inv
                      ∷ 0x1a
                      ∷ 0x1b
                      ∷ 0x1c
                      ∷ 0x1d
                      ∷ 0x1e
                      ∷ 0x1f
                      ∷ 0x20
                      ∷ row 0x21 (
                          row 0x29 (
                            0x31
                            ∷ 0x32
                            ∷ 0x33
                            ∷ inv
                            ∷ inv
                            ∷ inv
                            ∷ inv
                            ∷ inv
                            ∷ replicate 128 inv))))))))))

-- `table[c]`
abbrev pub at : List ℕ → ℕ → ℕ
at table c = get_or table c 0

-- A decoding table holds values below 64 and INV, and has INV for the pad character.
pub record IsDecodeTable (table : List ℕ) : Type 0 where
  pub entries : (c : ℕ) → c < 256 → (at table c < 64) ⊎ (at table c ≡ inv)
  pub pad : at table b'=' ≡ inv

-- The two tables of one alphabet.
pub record Alphabet (enc dec : List ℕ) : Type 0 where
  pub table : IsDecodeTable dec
  pub inverse : (x : ℕ) → x < 64 → at dec (at enc x) ≡ x
  pub not_pad : (x : ℕ) → x < 64 → at enc x ≢ b'='
  pub bytes : (x : ℕ) → x < 64 → at enc x < 256

abbrev entry : List ℕ → ℕ → Bool
entry table c = ltb (at table c) 64 || (at table c == inv)

abbrev sound : List ℕ → List ℕ → ℕ → Bool
sound enc dec x = (at dec (at enc x) == x) && (not (at enc x == b'=') && ltb (at enc x) 256)

entry_cases : (x : ℕ) → (ltb x 64 || (x == inv)) ≡ true → (x < 64) ⊎ (x ≡ inv)
entry_cases x e = ground arith

sound_parts :
    (x y z : ℕ)
    → ((z == x) && (not (y == b'=') && ltb y 256)) ≡ true
    → (z ≡ x) × (y ≢ b'=') × (y < 256)
sound_parts x y z e = ground arith

-- Two tables make an alphabet if a look at every entry says so.
Alphabet-of :
    (enc dec : List ℕ)
    → all_below 256 (entry dec) ≡ true
    → at dec b'=' ≡ inv
    → all_below 64 (sound enc dec) ≡ true
    → Alphabet enc dec
Alphabet-of enc dec entries pad inverse =
    let parts = λ (x : ℕ) (h : x < 64).
      sound_parts x (at enc x) (at dec (at enc x))
        (all_below_sound 64 (sound enc dec) x inverse h) in
    record {
      table = record {
        entries = λ c h. entry_cases (at dec c) (all_below_sound 256 (entry dec) c entries h);
        pad = pad;
      };
      inverse = λ x h. (parts x h).0;
      not_pad = λ x h. (parts x h).1;
      bytes = λ x h. (parts x h).2;
    }

pub b64-Alphabet : Alphabet b64_encode_table b64_decode_table
unfolding all_below
b64-Alphabet = Alphabet-of b64_encode_table b64_decode_table refl refl refl

pub b64url-Alphabet : Alphabet b64url_encode_table b64url_decode_table
unfolding all_below
b64url-Alphabet = Alphabet-of b64url_encode_table b64url_decode_table refl refl refl
