-- ===== src/Base64/Decode.antt =====
-- The decoder, which finds its last group by index, gives the bytes that the groups stand for.
use libjeffpc.Base.{
  ℕ, suc, ◌+◌, ◌-◌, ◌*◌, ◌/◌, ◌%◌, ◌^◌, ◌≤◌, ◌≡◌, ◌≢◌, refl, ap, ◌∙◌, ◌⊎◌, inl, inr, true, false,
  Option, none, some, List, [], ◌∷◌, ◌++◌, arith, ◌==◌, length, All, IsByte, append_assoc,
  length-append, append-nil, Bool-cases,
}
use libjeffpc.Base.Bits.{bit_and_low, bit_or_high}
use libjeffpc.Base64.{
  decode_groups, decode_tail, decode_last, b64_decode, full_groups, stored_behind, byte_at,
}
use libjeffpc.Base64.Tables.{at, IsDecodeTable}
use libjeffpc.Base64.Spec.{bytes, both, whole_group, last_group}
use libjeffpc.Base64.Groups.{check_inv_lem, decode_groups_step}

-- The bytes with their count.
abbrev pub counted : Option (List ℕ) → Option (ℕ × List ℕ)
counted none = none
counted (some out) = some (length out, out)

-- The same with a group's bytes before them.
abbrev behind : Option (List ℕ) → Option (ℕ × List ℕ) → Option (ℕ × List ℕ)
behind none r = none
behind (some g) none = none
behind (some g) (some (n, out)) = some (n + 3, g ++ out)

abbrev three_more : Option (ℕ × List ℕ) → Option (ℕ × List ℕ)
three_more none = none
three_more (some (n, out)) = some (n + 3, out)

stored_behind-both :
    (g out : Option (List ℕ)) (tail : Option (ℕ × List ℕ))
    → stored_behind (both g out) (three_more tail) ≡ behind g (stored_behind out tail)
stored_behind-both none out tail = refl
stored_behind-both (some g) none tail = refl
stored_behind-both (some g) (some out) none = refl
stored_behind-both (some g) (some out) (some (n, last)) =
    ap (λ o. some (n + 3, o)) (append_assoc g out last)

behind-counted :
    (g out : Option (List ℕ))
    → (g ≡ none) ⊎ ((t : List ℕ) × (g ≡ some t) × (length t ≡ 3))
    → behind g (counted out) ≡ counted (both g out)
behind-counted none out h = refl
behind-counted (some g) none h = refl
behind-counted (some g) (some out) (inl e) = cc
behind-counted (some g) (some out) (inr (t, e, l)) =
    let three : length g ≡ 3 = cc in ap (λ n. some (n, g ++ out)) (rw length-append (omega arith))

pub whole_group_three :
    (dec : List ℕ) (a b c d : ℕ)
    → (whole_group dec a b c d ≡ none)
      ⊎ ((t : List ℕ) × (whole_group dec a b c d ≡ some t) × (length t ≡ 3))
whole_group_three dec a b c d = ground arith

-- What the decoder does to a text of whole groups.
abbrev decode_body : List ℕ → List ℕ → Option (ℕ × List ℕ)
decode_body dec input =
    let groups = full_groups (length input) (byte_at input (length input - 1)) in
    stored_behind (decode_groups dec groups input) (decode_tail dec groups input)

-- An index from the end does not see a group at the front.
from_end :
    (a b c d k : ℕ) (rest : List ℕ)
    → k ≤ 4
    → 4 ≤ length rest
    → byte_at (a ∷ b ∷ c ∷ d ∷ rest) (length (a ∷ b ∷ c ∷ d ∷ rest) - k)
      ≡ byte_at rest (length rest - k)
from_end a b c d k rest h l =
    let n : length (a ∷ b ∷ c ∷ d ∷ rest) - k ≡ suc (suc (suc (suc (length rest - k)))) =
      omega arith in
    rw n

last_step :
    (dec : List ℕ) (g p q r s : ℕ)
    → decode_last dec (suc g) p q r s ≡ three_more (decode_last dec g p q r s)
unfolding decode_last
last_step dec g p q r s = ground arith

decode_tail_last :
    (dec : List ℕ) (g a b c d : ℕ) (rest : List ℕ)
    → 4 ≤ length rest
    → decode_last dec
        (suc g)
        (byte_at (a ∷ b ∷ c ∷ d ∷ rest) (length (a ∷ b ∷ c ∷ d ∷ rest) - 4))
        (byte_at (a ∷ b ∷ c ∷ d ∷ rest) (length (a ∷ b ∷ c ∷ d ∷ rest) - 3))
        (byte_at (a ∷ b ∷ c ∷ d ∷ rest) (length (a ∷ b ∷ c ∷ d ∷ rest) - 2))
        (byte_at rest (length rest - 1))
      ≡ three_more (decode_tail dec g rest)
decode_tail_last dec g a b c d rest h =
    rw
      (
        from_end a b c d 2 rest (omega arith) h,
        from_end a b c d 3 rest (omega arith) h,
        from_end a b c d 4 rest (omega arith) h,
      )
      (last_step dec g _ _ _ _)

full_groups_step :
    (n last : ℕ) → 4 ≤ n → full_groups (suc (suc (suc (suc n)))) last ≡ suc (full_groups n last)
full_groups_step n last h = ground arith

both-none : (g : Option (List ℕ)) → both g none ≡ none
both-none none = refl
both-none (some g) = refl

whole_stored :
    (g : Option (List ℕ))
    → (g ≡ none) ⊎ ((t : List ℕ) × (g ≡ some t) × (length t ≡ 3))
    → stored_behind (both g (some [])) (some (3, [])) ≡ counted g
whole_stored none h = refl
whole_stored (some g) (inl e) = cc
whole_stored (some g) (inr (t, e, l)) =
    let three : length g ≡ 3 = cc in
    let front : (g ++ []) ++ [] ≡ g = append-nil (g ++ []) ∙ append-nil g in cc (three, front)

module _ (dec : List ℕ) (ok : IsDecodeTable dec) where
  decode_body_step :
      (a b c d : ℕ) (rest : List ℕ)
      → All IsByte (a ∷ b ∷ c ∷ d ∷ [])
      → 4 ≤ length rest
      → decode_body dec (a ∷ b ∷ c ∷ d ∷ rest)
        ≡ behind (whole_group dec a b c d) (decode_body dec rest)
  decode_body_step a b c d rest (ha, (hb, (hc, (hd, _)))) h =
      let last = byte_at rest (length rest - 1) in
      let g = full_groups (length rest) last in
      rw (from_end a b c d 1 rest (omega arith) h, full_groups_step (length rest) last h)
        (ap (λ t. stored_behind (decode_groups dec (suc g) (a ∷ b ∷ c ∷ d ∷ rest)) t)
            (decode_tail_last dec g a b c d rest h)
          ∙ rw (decode_groups_step dec ok g a b c d rest ha hb hc hd) (
              stored_behind-both (whole_group dec a b c d) (decode_groups dec g rest)
                (decode_tail dec g rest)))

  last_whole : (a b c d : ℕ) → (d == b'=') ≡ false → decode_last dec 1 a b c d ≡ some (3, [])
  unfolding decode_last
  last_whole a b c d e = ground arith

  groups_done : decode_groups dec 0 [] ≡ some []
  unfolding decode_groups
  groups_done = refl

  decode_body_whole :
      (a b c d : ℕ)
      → All IsByte (a ∷ b ∷ c ∷ d ∷ [])
      → (d == b'=') ≡ false
      → decode_body dec (a ∷ b ∷ c ∷ d ∷ []) ≡ counted (last_group dec a b c d)
  decode_body_whole a b c d (ha, (hb, (hc, (hd, _)))) e =
      rw (e, last_whole a b c d e, decode_groups_step dec ok 0 a b c d [] ha hb hc hd, groups_done)
        (whole_stored (whole_group dec a b c d) (whole_group_three dec a b c d))

  decode_body_last :
      (a b c d : ℕ)
      → All IsByte (a ∷ b ∷ c ∷ d ∷ [])
      → decode_body dec (a ∷ b ∷ c ∷ d ∷ []) ≡ counted (last_group dec a b c d)
  unfolding decode_groups decode_last
  decode_body_last a b c d (ha, (hb, (hc, (hd, _)))) = elim (Bool-cases (d == b'=')) [
    | inr whole ↦ decode_body_whole a b c d (ha, (hb, (hc, (hd, tt)))) whole
    | inl pad ↦ elim (Bool-cases (c == b'=')) [
      | inl two ↦ ground (
        arith,
        check_inv_lem (at dec a) (at dec b) 0 0,
        ok.entries a ha,
        ok.entries b hb,
        bit_or_high 6 (at dec a) (at dec b),
        bit_and_low 8 ((at dec a * 64 + at dec b) / 16),
      )
      | inr one ↦ ground (
        arith,
        check_inv_lem (at dec a) (at dec b) (at dec c) 0,
        ok.entries a ha,
        ok.entries b hb,
        ok.entries c hc,
        bit_or_high 12 (at dec a) (at dec b * 2 ^ 6),
        bit_or_high 6 (at dec a * 64 + at dec b) (at dec c),
        bit_and_low 8 (((at dec a * 64 + at dec b) * 64 + at dec c) / 4 / 256),
        bit_and_low 8 (((at dec a * 64 + at dec b) * 64 + at dec c) / 4),
      )
    ]
  ]

  decode_body-bytes :
      (input : List ℕ)
      → All IsByte input
      → length input % 4 ≡ 0
      → 1 ≤ length input
      → decode_body dec input ≡ counted (bytes dec input)
  unfolding bytes
  decode_body-bytes [] h m n = absurd (omega arith)
  decode_body-bytes (a ∷ []) h m n = absurd (omega arith)
  decode_body-bytes (a ∷ b ∷ []) h m n = absurd (omega arith)
  decode_body-bytes (a ∷ b ∷ c ∷ []) h m n = absurd (omega arith)
  decode_body-bytes (a ∷ b ∷ c ∷ d ∷ []) h m n = decode_body_last a b c d h
  decode_body-bytes (a ∷ b ∷ c ∷ d ∷ e ∷ rest) (ha, (hb, (hc, (hd, h)))) m n =
      decode_body_step a b c d (e ∷ rest) (ha, (hb, (hc, (hd, tt)))) (omega arith)
      ∙ ap (behind (whole_group dec a b c d))
          (decode_body-bytes (e ∷ rest) h (omega arith) (omega arith))
      ∙ behind-counted (whole_group dec a b c d) (bytes dec (e ∷ rest))
          (whole_group_three dec a b c d)

  bytes_ragged : (input : List ℕ) → length input % 4 ≢ 0 → bytes dec input ≡ none
  unfolding bytes
  bytes_ragged [] h = absurd (h refl)
  bytes_ragged (a ∷ []) h = refl
  bytes_ragged (a ∷ b ∷ []) h = refl
  bytes_ragged (a ∷ b ∷ c ∷ []) h = refl
  bytes_ragged (a ∷ b ∷ c ∷ d ∷ []) h = absurd (h refl)
  bytes_ragged (a ∷ b ∷ c ∷ d ∷ e ∷ rest) h =
      rw (bytes_ragged (e ∷ rest) (omega arith)) (both-none (whole_group dec a b c d))

  decodes_body :
      (a : ℕ) (rest : List ℕ)
      → (length (a ∷ rest) % 4 == 0) ≡ true
      → b64_decode dec (a ∷ rest) ≡ decode_body dec (a ∷ rest)
  unfolding b64_decode
  decodes_body a rest e = rw (b64_decode, e) (ground arith)

  decodes_none :
      (a : ℕ) (rest : List ℕ)
      → (length (a ∷ rest) % 4 == 0) ≡ false
      → b64_decode dec (a ∷ rest) ≡ none
  unfolding b64_decode
  decodes_none a rest e = rw (b64_decode, e) (ground arith)

  -- Over any table whose entries are below 64 or INV, and INV for the pad character, the decoder
  -- returns -1 exactly where the input bytes are no Base64 text, and else stores the bytes that the
  -- text stands for and returns their number.
  pub b64_decode-bytes :
      (input : List ℕ) → All IsByte input → b64_decode dec input ≡ counted (bytes dec input)
  b64_decode-bytes [] h = unfold b64_decode bytes in refl
  b64_decode-bytes (a ∷ rest) h = elim (Bool-cases (length (a ∷ rest) % 4 == 0)) [
    | inl m ↦ decodes_body a rest m ∙ decode_body-bytes (a ∷ rest) h (ground arith) (omega arith)
    | inr m ↦ decodes_none a rest m ∙ rw (bytes_ragged (a ∷ rest) (ground arith))
  ]
