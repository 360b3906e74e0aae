-- ===== src/Urldecode/Spec.antt =====
-- What percent-decoding means, without a state machine or a buffer.
use libjeffpc.Base.{
  ℕ, ◌+◌, ◌*◌, Option, none, some, true, false, List, [], ◌∷◌, ◌==◌, if◌then◌else◌, codes,
}
use mathlib.Core.Option

-- The place of `c` in `digits`, counted from `n`.
unfoldable pub place : ℕ → ℕ → List ℕ → Option ℕ
place c n [] = none
place c n (d ∷ ds) = if c == d then some n else place c (n + 1) ds

-- The value of a hexadecimal digit in either case.
unfoldable pub hex_value : ℕ → Option ℕ
unfolding place
hex_value c = elim (place c 0 (codes "0123456789abcdef")) [
  | some d ↦ some d
  | none ↦ place c 0 (codes "0123456789ABCDEF")
]

abbrev pub unplus : ℕ → ℕ
unplus c = if c == b'+' then b' ' else c

abbrev pub put_byte : Option ℕ → Option ℕ → Option (List ℕ) → Option (List ℕ)
put_byte (some hi) (some lo) (some t) = some ((hi * 16 + lo) ∷ t)
put_byte _ _ _ = none

unfoldable pub percent_decode : List ℕ → Option (List ℕ)
unfolding hex_value
percent_decode [] = some []
percent_decode (c ∷ []) = if c == b'%' then none else some (unplus c ∷ [])
percent_decode (c ∷ h ∷ []) =
    if c == b'%' then none else Option.map (λ t. unplus c ∷ t) (percent_decode (h ∷ []))
percent_decode (c ∷ h ∷ l ∷ r) = elim (c == b'%') [
  | true ↦ put_byte (hex_value h) (hex_value l) (percent_decode r)
  | false ↦ Option.map (λ t. unplus c ∷ t) (percent_decode (h ∷ l ∷ r))
]
