-- ===== src/Unicode/Spec.antt =====
-- UTF-8 as a table of ranges, in plain arithmetic.
use libjeffpc.Base.{ℕ, ◌+◌, ◌/◌, ◌%◌, ◌≤◌, ◌<◌, ◌⊎◌, List, [], ◌∷◌, ◌++◌, ltb, if◌then◌else◌}

-- A Unicode scalar value: a code point that is no surrogate.
abbrev pub IsScalar : ℕ → Type 0
IsScalar cp = (cp < 0xd800) ⊎ ((0xdfff < cp) × (cp ≤ 0x10ffff))

unfoldable pub utf8 : ℕ → List ℕ
utf8 cp =
    if ltb cp 0x80
    then cp ∷ []
    else if ltb cp 0x800
    then (0xc0 + cp / 64) ∷ (0x80 + cp % 64) ∷ []
    else if ltb cp 0x10000
    then (0xe0 + cp / 4096) ∷ (0x80 + cp / 64 % 64) ∷ (0x80 + cp % 64) ∷ []
    else (0xf0 + cp / 262144)
      ∷ (0x80 + cp / 4096 % 64)
      ∷ (0x80 + cp / 64 % 64)
      ∷ (0x80 + cp % 64)
      ∷ []

unfoldable pub utf8_text : List ℕ → List ℕ
utf8_text [] = []
utf8_text (cp ∷ cps) = utf8 cp ++ utf8_text cps
