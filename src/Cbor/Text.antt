-- ===== src/Cbor/Text.antt =====
-- Unpacking a text.
use libjeffpc.Base.{
  ℕ, suc, ◌+◌, ◌≤◌, ◌≡◌, refl, sym, ap, ◌∙◌, ◌⊎◌, inl, inr, true, false, none, some, List, [], ◌∷◌,
  ◌++◌, arith, leb, ◌==◌, length, drop, set, cpu_to_be, ok, err, enomem, Option-cases,
  length-append, take-append, take_all, drop-append,
}
use libjeffpc.Base.Endian.{length-cpu_to_be}
use libjeffpc.Buffer.{Buffer, ssize_max, size_max, buffer_read}
use libjeffpc.Buffer.Memory.{Allocator, copy_in}
use libjeffpc.Cbor.{
  cmt_text, mktype, tmp_buffer, unpack_cbor_int, sync_buffers, cbor_unpack_cstr_len, same_type,
}
use libjeffpc.Cbor.Spec.{form, head, length-head}
use libjeffpc.Cbor.Reading.{
  Ahead, moved, moved-Ahead, read-Ahead, sync-Ahead, tmp-Ahead, length-Ahead,
}
use libjeffpc.Cbor.Unpack.{unpack_int-Ahead}
use mathlib.Core.Path.{subst}

-- The byte behind a text in a block that is one byte longer.
set_last :
    (s block : List ℕ)
    → length block ≡ suc (length s)
    → set (s ++ drop (length s) block) (length s) 0 ≡ s ++ 0 ∷ []
set_last [] (x ∷ []) h = refl
set_last [] [] h = absurd (omega arith)
set_last [] (x ∷ y ∷ block) h = absurd (omega arith)
set_last (c ∷ s) [] h = absurd (omega arith)
set_last (c ∷ s) (x ∷ block) h = ap (λ t. c ∷ t) (set_last s block (omega arith))

copy_text :
    (s block : List ℕ)
    → length block ≡ length s + 1
    → copy_in block 0 s (length s) ≡ ok (s ++ drop (length s) block)
unfolding copy_in
copy_text s block h =
    let from : 0 + length s ≡ length s = omega arith in
    let fits : leb (length s) (length block) ≡ true = ground arith in
    let all : leb (length s) (length s) ≡ true = ground arith in
    rw (copy_in, from, all, fits, take_all (length s) s (omega arith)) refl

module _ (s rest : List ℕ) (b : Buffer)
    (a : Ahead (head cmt_text (length s) ++ (s ++ rest)) b) where
  abbrev tmp1 : Buffer
  tmp1 = moved (moved (tmp_buffer b) 1) (form (length s)).0

  text-Ahead : Ahead (s ++ rest) tmp1
  text-Ahead =
      let n = length s in
      let number = cpu_to_be (form n).0 n in
      let byte = mktype cmt_text (form n).1 in
      let (ahead, start) = tmp-Ahead (head cmt_text n ++ (s ++ rest)) b a in
      let size : length number ≡ (form n).0 = length-cpu_to_be (form n).0 n in
      let first =
        moved-Ahead (byte ∷ (number ++ (s ++ rest))) (tmp_buffer b) ahead 1 (omega arith) in
      let second =
        moved-Ahead (number ++ (s ++ rest)) (moved (tmp_buffer b) 1) first (form n).0
          (omega (arith, length-append number (s ++ rest))) in
      let rest_of : drop (form n).0 (number ++ (s ++ rest)) ≡ s ++ rest =
        ap (λ (k : ℕ). drop k (number ++ (s ++ rest))) (sym size)
        ∙ drop-append number (s ++ rest) in
      subst (λ bs. Ahead bs tmp1) rest_of second

  text_short : length (head cmt_text (length s)) + length s ≤ ssize_max
  text_short = omega (
    arith,
    length-Ahead (head cmt_text (length s) ++ (s ++ rest)) b a,
    a.counted,
    length-append (head cmt_text (length s)) (s ++ rest),
    length-append s rest,
  )

  text_sync :
      sync_buffers b (moved tmp1 (length s))
      ≡ ok (moved b (length (head cmt_text (length s)) + length s))
  text_sync =
      let item = head cmt_text (length s) in
      let (_, start) = tmp-Ahead (item ++ (s ++ rest)) b a in
      let last = moved tmp1 (length s) in
      let off : last.off ≡ length item + length s =
        omega (arith, start, length-head cmt_text (length s)) in
      let long : last.off ≤ length (item ++ (s ++ rest)) =
        omega (arith, off, length-append item (s ++ rest), length-append s rest) in
      sync-Ahead (item ++ (s ++ rest)) b a last long ∙ ap (λ (k : ℕ). ok (moved b k)) off

  text_head : unpack_cbor_int (tmp_buffer b) cmt_text ≡ ok (length s, tmp1)
  unfolding same_type
  text_head =
      let (ahead, _) = tmp-Ahead (head cmt_text (length s) ++ (s ++ rest)) b a in
      unpack_int-Ahead cmt_text (length s) (s ++ rest) (omega (arith, text_short)) (tmp_buffer b)
        cmt_text ahead

  text_read : buffer_read (some tmp1) true (length s) ≡ ok (length s, s, moved tmp1 (length s))
  text_read =
      rw (read-Ahead (s ++ rest) tmp1 text-Ahead (length s) (omega (arith, length-append s rest)))
        (ap (λ bs. ok (length s, bs, moved tmp1 (length s))) (take-append s rest))

-- In front of any bytes, `cbor_unpack_cstr_len` reads the item of a text: it fails with ENOMEM if there
-- is no memory for the text and a NUL, and else returns both in a new block, with the text's length, and
-- moves the buffer behind the item. It never leaves a block.
pub cbor_unpack_cstr_len_lem :
    (alloc : Allocator) (s rest : List ℕ) (b : Buffer)
    → Ahead (head cmt_text (length s) ++ (s ++ rest)) b
    → ((alloc.malloc (length s + 1) ≡ none) × (cbor_unpack_cstr_len alloc b ≡ err enomem))
      ⊎ (cbor_unpack_cstr_len alloc b
          ≡ ok ((s ++ 0 ∷ [], length s), moved b (length (head cmt_text (length s)) + length s)))
unfolding cbor_unpack_cstr_len
cbor_unpack_cstr_len_lem alloc s rest b a =
    let fits : leb size_max (length s) ≡ false = ground (arith, text_short s rest b a) in
    elim (Option-cases (alloc.malloc (length s + 1))) [
      | inl got ↦ inl (got, rw (cbor_unpack_cstr_len, text_head s rest b a, fits, got) refl)
      | inr (block, got) ↦
          let size : length block ≡ length s + 1 = alloc.malloc_size (length s + 1) block got in
          let whole : (length s == length s) ≡ true = ground arith in
          inr (
            rw
              (
                cbor_unpack_cstr_len,
                text_head s rest b a,
                fits,
                got,
                text_read s rest b a,
                copy_text s block size,
                whole,
                text_sync s rest b a,
                set_last s block (omega arith),
              )
              refl)
    ]
