-- ===== src/Unicode/Strings.antt =====
-- `utf8_is_valid_str` accepts exactly the UTF-8 texts, and always ends.
use libjeffpc.Base.{
  ℕ, zero, suc, ◌≤◌, ◌≡◌, ◌≢◌, refl, ◌∙◌, ap, ◌⊎◌, inl, inr, Option, none, some, List, [], ◌∷◌,
  ◌++◌, arith, length, drop, All, IsByte, Result, ok, err, eilseq, All-drop, drop-append,
  length-drop,
}
use libjeffpc.Unicode.{utf8_to_utf32, valid_loop, utf8_is_valid_str}
use libjeffpc.Unicode.Spec.{IsScalar, utf8, utf8_text}
use libjeffpc.Unicode.Decode.{utf8_to_utf32-utf8, utf8_to_utf32-Reads}

-- A text of scalar values, or none.
abbrev pub Validated : List ℕ → Option (Result (Unit {0})) → Type 0
Validated src r =
    ((r ≡ some (ok tt)) × ((cps : List ℕ) × All IsScalar cps × (src ≡ utf8_text cps)))
    ⊎ ((r ≡ some (err eilseq)) × ((cps : List ℕ) → All IsScalar cps → src ≢ utf8_text cps))

utf8_nonempty : (cp : ℕ) → 1 ≤ length (utf8 cp)
unfolding utf8
utf8_nonempty cp = ground arith

-- A text is read by its first value.
text_head :
    (src : List ℕ) (cp : ℕ) (cps : List ℕ)
    → All IsByte src
    → IsScalar cp
    → src ≡ utf8_text (cp ∷ cps)
    → (utf8_to_utf32 src ≡ (length (utf8 cp), some cp))
      × (drop (length (utf8 cp)) src ≡ utf8_text cps)
unfolding utf8_text
text_head src cp cps h s e =
    let rest = drop-append (utf8 cp) (utf8_text cps) in
    let bytes = rw (e, rest) at (All-drop IsByte (length (utf8 cp)) src h) in
    (rw e (utf8_to_utf32-utf8 cp (utf8_text cps) s bytes), rw e rest)

loop_refuses :
    (fuel c : ℕ) (rest : List ℕ)
    → utf8_to_utf32 (c ∷ rest) ≡ (0, none)
    → valid_loop (suc fuel) (c ∷ rest) ≡ some (err eilseq)
unfolding valid_loop
loop_refuses fuel c rest e = rw (valid_loop, e)

loop_reads :
    (fuel c : ℕ) (rest : List ℕ) (n cp : ℕ)
    → 1 ≤ n
    → utf8_to_utf32 (c ∷ rest) ≡ (n, some cp)
    → valid_loop (suc fuel) (c ∷ rest) ≡ valid_loop fuel (drop n (c ∷ rest))
unfolding valid_loop
loop_reads fuel c rest (suc n) cp h e = rw (valid_loop, e) (ground arith)
loop_reads fuel c rest zero cp h e = absurd (omega arith)

-- What the decoder refuses begins no text.
refused_never :
    (c : ℕ) (rest cps : List ℕ)
    → All IsByte (c ∷ rest)
    → utf8_to_utf32 (c ∷ rest) ≡ (0, none)
    → All IsScalar cps
    → (c ∷ rest) ≢ utf8_text cps
unfolding utf8_text
refused_never c rest [] h read s e = cc
refused_never c rest (cp ∷ cps) h read (s, ss) e = cc (read, (text_head (c ∷ rest) cp cps h s e).0)

-- What the decoder reads is the first value of any text that the bytes are.
rest_never :
    (c : ℕ) (rest cps : List ℕ) (cp : ℕ)
    → All IsByte (c ∷ rest)
    → utf8_to_utf32 (c ∷ rest) ≡ (length (utf8 cp), some cp)
    → ((ds : List ℕ) → All IsScalar ds → drop (length (utf8 cp)) (c ∷ rest) ≢ utf8_text ds)
    → All IsScalar cps
    → (c ∷ rest) ≢ utf8_text cps
unfolding utf8_text
rest_never c rest [] cp h read never s e = cc
rest_never c rest (d ∷ ds) cp h read never (s, ss) e =
    let (first, tail) = text_head (c ∷ rest) d ds h s e in
    let same : length (utf8 cp) ≡ length (utf8 d) = cc (read, first) in never ds ss (rw same tail)

loop_Validated :
    (fuel : ℕ) (src : List ℕ)
    → All IsByte src
    → length src ≤ fuel
    → Validated src (valid_loop fuel src)
unfolding utf8_text
loop_Validated fuel [] h hf = unfold valid_loop in inl (refl, ([], tt, refl))
loop_Validated zero (c ∷ rest) h hf = absurd (omega arith)
loop_Validated (suc fuel) (c ∷ rest) h hf =
    let src = c ∷ rest in
    elim (utf8_to_utf32-Reads src h) [
      | inl none_read ↦
          inr
            (loop_refuses fuel c rest none_read, λ cps ss. refused_never c rest cps h none_read ss)
      | inr (cp, s, read, front) ↦
          let n = length (utf8 cp) in
          let step = loop_reads fuel c rest n cp (utf8_nonempty cp) read in
          elim (loop_Validated fuel (drop n src) (All-drop IsByte n src h)
            (omega (arith, length-drop n src, utf8_nonempty cp))) [
              | inl (done, (cps, ss, e)) ↦
                  inl (step ∙ done, (cp ∷ cps, (s, ss), front ∙ ap (λ t. utf8 cp ++ t) e))
              | inr (bad, never) ↦ inr (step ∙ bad, λ cps. rest_never c rest cps cp h read never)
            ]
    ]

-- On any bytes `utf8_is_valid_str` ends within its rounds. It returns 0 where the bytes are the UTF-8
-- sequences of some scalar values, one behind the other, and EILSEQ where they are those of none.
pub utf8_is_valid_str-Validated :
    (src : List ℕ) → All IsByte src → Validated src (utf8_is_valid_str src)
unfolding utf8_is_valid_str
utf8_is_valid_str-Validated src h = loop_Validated (length src) src h (omega arith)
