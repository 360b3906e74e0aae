-- ===== src/Base64/Spec.antt =====
-- Base64 by whole groups, in plain arithmetic and with no index.
use libjeffpc.Base.{
  ℕ, ◌+◌, ◌*◌, ◌/◌, ◌%◌, Bool, true, false, ◌&&◌, Option, none, some, List, [], ◌∷◌, ◌++◌, ◌==◌,
  if◌then◌else◌,
}
use libjeffpc.Base64.Tables.{inv, at}

-- The text of an input: four characters for three bytes, padded at the end.
unfoldable pub text : List ℕ → List ℕ → List ℕ
text enc [] = []
text enc (a ∷ []) = at enc (a / 4) ∷ at enc (a % 4 * 16) ∷ b'=' ∷ b'=' ∷ []
text enc (a ∷ b ∷ []) =
    at enc (a / 4) ∷ at enc (a % 4 * 16 + b / 16) ∷ at enc (b % 16 * 4) ∷ b'=' ∷ []
text enc (a ∷ b ∷ c ∷ rest) =
    at enc (a / 4)
    ∷ at enc (a % 4 * 16 + b / 16)
    ∷ at enc (b % 16 * 4 + c / 64)
    ∷ at enc (c % 64)
    ∷ text enc rest

-- A character of the alphabet.
abbrev pub known : List ℕ → ℕ → Bool
known dec c = if at dec c == inv then false else true

abbrev pub three_bytes : List ℕ → ℕ → ℕ → ℕ → ℕ → List ℕ
three_bytes dec a b c d =
    (at dec a * 4 + at dec b / 16)
    ∷ (at dec b % 16 * 16 + at dec c / 4)
    ∷ (at dec c % 4 * 64 + at dec d)
    ∷ []

abbrev pub whole_group : List ℕ → ℕ → ℕ → ℕ → ℕ → Option (List ℕ)
whole_group dec a b c d =
    if known dec a && (known dec b && (known dec c && known dec d))
    then some (three_bytes dec a b c d)
    else none

-- The last group, which may be padded by one or two characters.
abbrev pub last_group : List ℕ → ℕ → ℕ → ℕ → ℕ → Option (List ℕ)
last_group dec a b c d =
    if (d == b'=')
    then (if (c == b'=')
        then (if known dec a && known dec b
            then some ((at dec a * 4 + at dec b / 16) ∷ [])
            else none)
        else (if known dec a && (known dec b && known dec c)
            then some ((at dec a * 4 + at dec b / 16) ∷ (at dec b % 16 * 16 + at dec c / 4) ∷ [])
            else none))
    else whole_group dec a b c d

abbrev pub both : Option (List ℕ) → Option (List ℕ) → Option (List ℕ)
both none y = none
both (some x) none = none
both (some x) (some y) = some (x ++ y)

-- The bytes that a text stands for.
unfoldable pub bytes : List ℕ → List ℕ → Option (List ℕ)
bytes dec [] = some []
bytes dec (a ∷ []) = none
bytes dec (a ∷ b ∷ []) = none
bytes dec (a ∷ b ∷ c ∷ []) = none
bytes dec (a ∷ b ∷ c ∷ d ∷ []) = last_group dec a b c d
bytes dec (a ∷ b ∷ c ∷ d ∷ e ∷ rest) = both (whole_group dec a b c d) (bytes dec (e ∷ rest))
