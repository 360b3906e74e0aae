-- ===== src/Cbor/Floats.antt =====
-- The items of type CMT_FLOAT, which are single bytes: truth values, null and the break.
use libjeffpc.Base.{
  ℕ, ◌<◌, ◌≡◌, refl, ap, ◌∙◌, ◌⊎◌, true, false, List, ◌∷◌, arith, ◌==◌, if◌then◌else◌, ok, err,
  eilseq,
}
use libjeffpc.Buffer.{Buffer}
use libjeffpc.Cbor.{
  cmt_float, mktype, tmp_buffer, sync_buffers, unpack_cbor_float, same_type, cbor_unpack_bool,
  cbor_unpack_null, cbor_unpack_break,
}
use libjeffpc.Cbor.Spec.{type_of-mktype, bit_and-mktype}
use libjeffpc.Cbor.Reading.{Ahead, moved, sync-Ahead, tmp-Ahead}
use libjeffpc.Cbor.Unpack.{read_type-Ahead}

-- The items that there are.
abbrev IsFloat : ℕ → Type 0
IsFloat x = (x ≡ 20) ⊎ (x ≡ 21) ⊎ (x ≡ 22) ⊎ (x ≡ 31)

module _ (x : ℕ) (rest : List ℕ) (b : Buffer) (a : Ahead (mktype cmt_float x ∷ rest) b) where
  float-Ahead : IsFloat x → unpack_cbor_float (tmp_buffer b) ≡ ok (x, moved (tmp_buffer b) 1)
  unfolding unpack_cbor_float same_type
  float-Ahead h =
      let low : x < 32 = ground arith in
      let (ahead, _) = tmp-Ahead (mktype cmt_float x ∷ rest) b a in
      rw
        (
          unpack_cbor_float,
          read_type-Ahead (mktype cmt_float x) rest (tmp_buffer b) ahead,
          type_of-mktype cmt_float x low,
          bit_and-mktype cmt_float x low,
        )
        (ground arith)

  float_sync : sync_buffers b (moved (tmp_buffer b) 1) ≡ ok (moved b 1)
  float_sync =
      let (_, start) = tmp-Ahead (mktype cmt_float x ∷ rest) b a in
      let off : (moved (tmp_buffer b) 1).off ≡ 1 = omega (arith, start) in
      sync-Ahead (mktype cmt_float x ∷ rest) b a (moved (tmp_buffer b) 1) (omega (arith, off))
      ∙ ap (λ (k : ℕ). ok (moved b k)) off

-- In front of any bytes, each of the four single-byte items, false, true, null and the break, is taken
-- by its own function, which returns the truth value where it is one and moves the buffer behind the
-- byte, and is refused with EILSEQ by the two functions that read another.
pub cbor_unpack_bool_lem :
    (x : ℕ) (rest : List ℕ) (b : Buffer)
    → (x ≡ 20) ⊎ (x ≡ 21) ⊎ (x ≡ 22) ⊎ (x ≡ 31)
    → Ahead (mktype cmt_float x ∷ rest) b
    → (cbor_unpack_bool b ≡ (
        if (x == 20)
        then ok (false, moved b 1)
        else if (x == 21)
        then ok (true, moved b 1)
        else err eilseq))
      × (cbor_unpack_null b ≡ (if (x == 22) then ok (moved b 1) else err eilseq))
      × (cbor_unpack_break b ≡ (if (x == 31) then ok (moved b 1) else err eilseq))
unfolding cbor_unpack_bool cbor_unpack_null cbor_unpack_break
cbor_unpack_bool_lem x rest b h a = (
  rw (cbor_unpack_bool, float-Ahead x rest b a h, float_sync x rest b a) refl,
  rw (cbor_unpack_null, float-Ahead x rest b a h, float_sync x rest b a) refl,
  rw (cbor_unpack_break, float-Ahead x rest b a h, float_sync x rest b a) refl,
)
