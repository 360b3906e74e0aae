-- ===== src/Urldecode/Decodes.antt =====
-- The decoder of urldecode.c does what percent-decoding means.
use libjeffpc.Base.{
  ℕ, suc, ◌+◌, ◌*◌, ◌≤◌, ◌<◌, ◌≡◌, refl, ◌∙◌, ap, inl, inr, true, false, Option, none, some, List,
  [], ◌∷◌, ◌++◌, arith, ◌==◌, length, set, take, All, IsByte, all_below, all_below_sound, Bool,
  Bool-cases, Option-cases, take-set_next, get_elem?-set_ne, get_elem?, length-set, set-set,
  get_or-set_self, append_assoc, append-nil, bit_or,
}
use mathlib.Core.Option
use native.Mathlib.Numerals.{add-one}
use libjeffpc.Base.{Result, ok, err, ◌>>=◌, eilseq}
use libjeffpc.Base.Bits.{bit_or_high}
use libjeffpc.Urldecode.{
  State, ds_copy, ds_esc1, ds_esc2, escape_digit, decode_round, decode_loop, decode_end, urldecode,
}
use libjeffpc.Urldecode.Spec.{hex_value, percent_decode, unplus, put_byte}

same : Option ℕ → Option ℕ → Bool
same none none = true
same (some a) (some b) = a == b
same _ _ = false

same→eq : (a b : Option ℕ) → same a b ≡ true → a ≡ b
unfolding same
same→eq a b h = ground arith

digit_table : all_below 256 (λ c. same (escape_digit c) (hex_value c)) ≡ true
unfolding all_below same escape_digit hex_value
digit_table = refl

escape_digit-hex_value : (c : ℕ) → IsByte c → escape_digit c ≡ hex_value c
escape_digit-hex_value c h =
    same→eq _ _ (all_below_sound 256 (λ c. same (escape_digit c) (hex_value c)) c digit_table h)

escape_digit-lt : (c d : ℕ) → escape_digit c ≡ some d → d < 16
unfolding escape_digit
escape_digit-lt c d h = ground arith

abbrev at : ℕ → List ℕ → State
at n out = record { state = ds_copy; out = out; outoff = n }

-- The decoder ended well: the bytes `t` stand behind the first `n` of `out`, and nothing from
-- `n + m` on is changed. Or it refused.
abbrev pub Decoded : Option (List ℕ) → ℕ → ℕ → List ℕ → Result (ℕ × List ℕ) → Type 0
Decoded none m n out r = r ≡ err eilseq
Decoded (some t) m n out r =
    (out' : List ℕ) × (r ≡ ok (n + length t, out'))
    × (take (n + length t) out' ≡ take n out ++ t)
    × (length out' ≡ length out)
    × ((i : ℕ) → n + m ≤ i → get_elem? out' i ≡ get_elem? out i)

-- A byte that is written first stands first.
Decoded-write :
    (v k m n : ℕ) (out : List ℕ) (d : Option (List ℕ)) (r : Result (ℕ × List ℕ))
    → n < length out
    → suc k ≤ m
    → Decoded d k (suc n) (set out n v) r
    → Decoded (Option.map (λ t. v ∷ t) d) m n out r
Decoded-write v k m n out none r h hm e = e
Decoded-write v k m n out (some t) r h hm (out', e, took, len, rest) =
    let shift : n + length (v ∷ t) ≡ suc n + length t = omega arith in
    (
      out',
      rw shift e,
      rw shift (
          took ∙ ap (λ p. p ++ t) (take-set_next out n v h) ∙ append_assoc (take n out) (v ∷ []) t),
      len ∙ length-set out n v,
      λ i hi. rest i (omega arith) ∙ get_elem?-set_ne out n i v (omega arith),
    )

abbrev low_nibble : (a b : ℕ) → b < 16 → bit_or (a * 16) b ≡ a * 16 + b
low_nibble a b h = bit_or_high 4 a b h

abbrev after_digit : ℕ → List ℕ → State
after_digit n out = record { state = ds_esc2; out = out; outoff = n }

abbrev after_percent : ℕ → List ℕ → State
after_percent n out = record { state = ds_esc1; out = out; outoff = n }

module _ (h n : ℕ) (out : List ℕ) where
  round_first :
      (a : ℕ)
      → escape_digit h ≡ some a
      → decode_round (after_percent n out) h ≡ ok (after_digit n (set out n (a * 16)))
  unfolding decode_round
  round_first a ha = ground (arith, escape_digit-lt h a ha)

  round_second :
      (a b : ℕ)
      → n < length out
      → escape_digit h ≡ some b
      → decode_round (after_digit n (set out n (a * 16))) h
        ≡ ok (at (suc n) (set out n (a * 16 + b)))
  unfolding decode_round
  round_second a b hn hb = ground (
    arith,
    escape_digit-lt h b hb,
    get_or-set_self out n (a * 16) 0 hn,
    low_nibble a b (escape_digit-lt h b hb),
    set-set out n (a * 16) (a * 16 + b),
    add-one n,
  )

  round_none_first : escape_digit h ≡ none → decode_round (after_percent n out) h ≡ err eilseq
  unfolding decode_round
  round_none_first e = ground arith

  round_none_second : escape_digit h ≡ none → decode_round (after_digit n out) h ≡ err eilseq
  unfolding decode_round
  round_none_second e = ground arith

  round_percent : (h == b'%') ≡ true → decode_round (at n out) h ≡ ok (after_percent n out)
  unfolding decode_round
  round_percent e = ground arith

  round_plain :
      (h == b'%') ≡ false → decode_round (at n out) h ≡ ok (at (suc n) (set out n (unplus h)))
  unfolding decode_round
  round_plain e = ground (arith, add-one n)

finish_step :
    (c : ℕ) (input : List ℕ) (s t : State)
    → decode_round s c ≡ ok t
    → (decode_loop (c ∷ input) s >>= decode_end) ≡ (decode_loop input t >>= decode_end)
unfolding decode_loop
finish_step c input s t e = rw e

finish_fail :
    (c : ℕ) (input : List ℕ) (s : State)
    → decode_round s c ≡ err eilseq
    → (decode_loop (c ∷ input) s >>= decode_end) ≡ err eilseq
unfolding decode_loop
finish_fail c input s e = rw e

abbrev run : List ℕ → State → Result (ℕ × List ℕ)
run input s = decode_loop input s >>= decode_end

run_cut : (c n : ℕ) (out : List ℕ) → (c == b'%') ≡ true → run (c ∷ []) (at n out) ≡ err eilseq
run_cut c n out e =
    finish_step c [] (at n out) (after_percent n out) (round_percent c n out e)
    ∙ (unfold decode_loop decode_end in refl)

run_cut_digit :
    (c h n : ℕ) (out : List ℕ) → (c == b'%') ≡ true → run (c ∷ h ∷ []) (at n out) ≡ err eilseq
run_cut_digit c h n out e =
    finish_step c (h ∷ []) (at n out) (after_percent n out) (round_percent c n out e)
    ∙ elim (Option-cases (escape_digit h)) [
      | inl d ↦ finish_fail h [] _ (round_none_first h n out d)
      | inr (a, d) ↦
          finish_step h [] _ _ (round_first h n out a d) ∙ (unfold decode_loop decode_end in refl)
    ]

put_byte-map :
    (a b : ℕ) (d : Option (List ℕ))
    → put_byte (some a) (some b) d ≡ Option.map (λ t. (a * 16 + b) ∷ t) d
put_byte-map a b none = refl
put_byte-map a b (some t) = refl

-- The three rounds of an escape, by its two digits.
run_escape :
    (c h l n m : ℕ) (r out : List ℕ) (d : Option (List ℕ))
    → (c == b'%') ≡ true
    → n < length out
    → ((v : ℕ) → Decoded d m (suc n) (set out n v) (run r (at (suc n) (set out n v))))
    → Decoded
        (put_byte (escape_digit h) (escape_digit l) d)
        (suc (suc (suc m)))
        n
        out
        (run (c ∷ h ∷ l ∷ r) (at n out))
run_escape c h l n m r out d e hn ih =
    rw (finish_step c (h ∷ l ∷ r) _ _ (round_percent c n out e))
      (elim (Option-cases (escape_digit h)) [
        | inl x ↦
            rw (x, finish_fail h (l ∷ r) (after_percent n out) (round_none_first h n out x)) refl
        | inr (a, x) ↦
            let digit = after_digit n (set out n (a * 16)) in
            rw (x, finish_step h (l ∷ r) _ _ (round_first h n out a x))
              (elim (Option-cases (escape_digit l)) [
                | inl y ↦ rw (y, finish_fail l r digit (round_none_second l n _ y)) refl
                | inr (b, y) ↦
                    rw (y, finish_step l r _ _ (round_second l n out a b hn y), put_byte-map a b d)
                      (Decoded-write (a * 16 + b) m (suc (suc (suc m))) n out d _ hn (omega arith)
                        (ih (a * 16 + b)))
              ])
      ])

run_plain :
    (c n : ℕ) (r out : List ℕ) (d : Option (List ℕ))
    → (c == b'%') ≡ false
    → n < length out
    → Decoded d
        (length r)
        (suc n)
        (set out n (unplus c))
        (run r (at (suc n) (set out n (unplus c))))
    → Decoded (Option.map (λ t. unplus c ∷ t) d) (suc (length r)) n out (run (c ∷ r) (at n out))
run_plain c n r out d e hn ih =
    rw (finish_step c r _ _ (round_plain c n out e))
      (Decoded-write (unplus c) (length r) (suc (length r)) n out d _ hn (omega arith) ih)

percent_decode_escape :
    (c h l : ℕ) (r : List ℕ)
    → (c == b'%') ≡ true
    → percent_decode (c ∷ h ∷ l ∷ r) ≡ put_byte (hex_value h) (hex_value l) (percent_decode r)
unfolding percent_decode
percent_decode_escape c h l r e = ground arith

percent_decode_plain :
    (c h l : ℕ) (r : List ℕ)
    → (c == b'%') ≡ false
    → percent_decode (c ∷ h ∷ l ∷ r) ≡ Option.map (λ t. unplus c ∷ t) (percent_decode (h ∷ l ∷ r))
unfolding percent_decode
percent_decode_plain c h l r e = ground arith

run-Decoded :
    (input : List ℕ) (n : ℕ) (out : List ℕ)
    → All IsByte input
    → n + length input ≤ length out
    → Decoded (percent_decode input) (length input) n out (run input (at n out))
unfolding percent_decode
run-Decoded [] n out bytes fit =
    unfold decode_loop decode_end in
    (
      out,
      ap (λ (k : ℕ). ok (k, out)) (omega arith),
      rw append-nil (ap (λ (k : ℕ). take k out) (omega arith)),
      refl,
      λ i hi. refl,
    )
run-Decoded (c ∷ []) n out bytes fit = elim (Bool-cases (c == b'%')) [
  | inl e ↦ rw e (run_cut c n out e)
  | inr e ↦ rw e (
      run_plain c n [] out (some []) e (omega arith) (
        run-Decoded [] (suc n) (set out n (unplus c)) tt
          (omega (arith, length-set out n (unplus c)))))
]
run-Decoded (c ∷ h ∷ []) n out (bc, bs) fit = elim (Bool-cases (c == b'%')) [
  | inl e ↦ rw e (run_cut_digit c h n out e)
  | inr e ↦ rw e (
      run_plain c n (h ∷ []) out _ e (omega arith) (
        run-Decoded (h ∷ []) (suc n) (set out n (unplus c)) bs
          (omega (arith, length-set out n (unplus c)))))
]
run-Decoded (c ∷ h ∷ l ∷ r) n out (bc, (bh, (bl, bs))) fit = elim (Bool-cases (c == b'%')) [
  | inl e ↦
      rw
        (
          percent_decode_escape c h l r e,
          ← escape_digit-hex_value h bh,
          ← escape_digit-hex_value l bl,
        )
        (run_escape c h l n (length r) r out _ e (omega arith)
          λ v. run-Decoded r (suc n) (set out n v) bs (omega (arith, length-set out n v)))
  | inr e ↦ rw (percent_decode_plain c h l r e) (
      run_plain c n (h ∷ l ∷ r) out _ e (omega arith) (
        run-Decoded (h ∷ l ∷ r) (suc n) (set out n (unplus c)) (bh, (bl, bs))
          (omega (arith, length-set out n (unplus c)))))
]

urldecode_cons :
    (c : ℕ) (r out : List ℕ) → urldecode (some (c ∷ r)) (some out) ≡ run (c ∷ r) (at 0 out)
unfolding urldecode
urldecode_cons c r out = ground arith

-- On input bytes and a buffer with room for as many, `urldecode` never aborts. It refuses with
-- EILSEQ exactly the inputs that have no percent-decoding. Else it returns the length of the
-- decoding and leaves it at the start of the buffer, keeps the buffer's length, and changes no
-- byte of the buffer from the input's length on.
pub urldecode-Decoded :
    (input out : List ℕ)
    → All IsByte input
    → length input ≤ length out
    → Decoded (percent_decode input) (length input) 0 out (urldecode (some input) (some out))
unfolding urldecode
urldecode-Decoded [] out bytes fit = unfold percent_decode in (out, refl, refl, refl, λ i hi. refl)
urldecode-Decoded (c ∷ r) out bytes fit =
    rw (urldecode_cons c r out) (run-Decoded (c ∷ r) 0 out bytes (omega arith))
