-- ===== src/Cbor/Unpack.antt =====
-- Unpacking reads the items that RFC 8949 describes, with any bytes behind them.
use libjeffpc.Base.{
  zero, suc, negsuc, ℕ, ◌+◌, ◌-◌, ◌%◌, ◌/◌, ◌^◌, ◌≤◌, ◌<◌, ◌≡◌, ◌≢◌, refl, sym, ap, ◌∙◌, inl, inr,
  ℤ, pos, to_int64, false, List, ◌∷◌, ◌++◌, arith, ltb, ◌==◌, if◌then◌else◌, length, take, bit_and,
  cpu_to_be, be_to_cpu, Result, ok, err, eilseq, eoverflow, ◌>>=◌, length-append, take-append,
  Bool-cases,
}
use libjeffpc.Base.Endian.{length-cpu_to_be, be_to_cpu-cpu_to_be}
use libjeffpc.Buffer.{Buffer, buffer_remain}
use libjeffpc.Cbor.{
  MajorType, cmt_uint, cmt_nint, type_of, mktype, read_cbor_type, get_addl_bytes, same_type,
  unpack_cbor_int, sync_buffers, tmp_buffer, cbor_unpack_uint, cbor_unpack_nint, cbor_unpack_int,
}
use libjeffpc.Cbor.Spec.{form, head, Fits, form-Fits, type_of-mktype, bit_and-mktype, length-head}
use libjeffpc.Cbor.Reading.{
  Ahead, moved, moved-Ahead, remain-Ahead, read-Ahead, seek-Ahead, current-Ahead, sync-Ahead,
  tmp-Ahead,
}

module _ (byte : ℕ) (rest : List ℕ) (b : Buffer) (a : Ahead (byte ∷ rest) b) where
  pub read_type-Ahead :
      read_cbor_type b ≡ ok ((type_of (byte / 2 ^ 5), bit_and byte 0x1f), moved b 1)
  unfolding read_cbor_type
  read_type-Ahead = rw (read-Ahead (byte ∷ rest) b a 1 (omega arith)) refl

module _ (v size addl : ℕ) (rest : List ℕ) (b : Buffer) (fits : Fits v size addl) where
  pub get_addl-Ahead :
      Ahead (cpu_to_be size v ++ rest) b → get_addl_bytes b addl ≡ ok (v, moved b size)
  unfolding get_addl_bytes
  get_addl-Ahead a =
      let bytes = cpu_to_be size v ++ rest in
      let number : length (cpu_to_be size v) ≡ size = length-cpu_to_be size v in
      let long : size ≤ length bytes = omega (arith, length-append (cpu_to_be size v) rest) in
      let there : ltb (buffer_remain b) size ≡ false = ground (arith, remain-Ahead bytes b a) in
      let front : take size bytes ≡ cpu_to_be size v =
        ap (λ (k : ℕ). take k bytes) (sym number) ∙ take-append (cpu_to_be size v) rest in
      let value : (if (size == 0) then addl else be_to_cpu (cpu_to_be size v)) ≡ v =
        elim fits.stored [
          | inl (none_more, same) ↦ ground arith
          | inr (more, small) ↦ ground (arith, be_to_cpu-cpu_to_be size v small)
        ] in
      rw
        (
          get_addl_bytes,
          fits.sized,
          there,
          current-Ahead bytes b a size long,
          front,
          seek-Ahead bytes b a size long,
          value,
        )
        refl

-- The number, with the buffer itself moved on.
abbrev synced : Buffer → ℕ × Buffer → Result (ℕ × Buffer)
synced b r = sync_buffers b r.1 >>= λ b'. ok (r.0, b')

-- The buffer behind a head.
abbrev behind : Buffer → MajorType → ℕ → Buffer
behind b t v = moved b (length (head t v))

module _ (t : MajorType) (v : ℕ) (rest : List ℕ) (small : v < 2 ^ 64) where
  pub unpack_int-Ahead :
      (b : Buffer) (expected : MajorType)
      → Ahead (head t v ++ rest) b
      → unpack_cbor_int b expected
        ≡ (if same_type expected t then ok (v, moved (moved b 1) (form v).0) else err eilseq)
  unfolding unpack_cbor_int
  unpack_int-Ahead b expected a =
      let fits = form-Fits v small in
      let byte = mktype t (form v).1 in
      let tail = cpu_to_be (form v).0 v ++ rest in
      let next : Ahead tail (moved b 1) = moved-Ahead (byte ∷ tail) b a 1 (omega arith) in
      rw
        (
          read_type-Ahead byte tail b a,
          type_of-mktype t (form v).1 fits.low,
          bit_and-mktype t (form v).1 fits.low,
          get_addl-Ahead v (form v).0 (form v).1 rest (moved b 1) fits next,
        )
        refl

  -- On the temporary buffer, whose offset is then brought over.
  unpack_tmp :
      (b : Buffer) (expected : MajorType)
      → Ahead (head t v ++ rest) b
      → (unpack_cbor_int (tmp_buffer b) expected >>= synced b)
        ≡ (if same_type expected t then ok (v, behind b t v) else err eilseq)
  unpack_tmp b expected a =
      let (ahead, start) = tmp-Ahead (head t v ++ rest) b a in
      let last = moved (moved (tmp_buffer b) 1) (form v).0 in
      let off : last.off ≡ length (head t v) = omega (arith, start, length-head t v) in
      let long : last.off ≤ length (head t v ++ rest) =
        omega (arith, off, length-append (head t v) rest) in
      let sync : sync_buffers b last ≡ ok (moved b (length (head t v))) =
        sync-Ahead (head t v ++ rest) b a last long ∙ ap (λ (k : ℕ). ok (moved b k)) off in
      rw (unpack_int-Ahead (tmp_buffer b) expected ahead)
        (elim (Bool-cases (same_type expected t)) [ inl e ↦ rw (e, sync) refl | inr e ↦ rw e refl ])

-- In front of any bytes, an item of a number that is packed in the shortest form is read by
-- `cbor_unpack_uint` if its type is CMT_UINT, and by `cbor_unpack_nint` if it is CMT_NINT: they return
-- the number and move the buffer behind the item. On an item of any other type they fail with EILSEQ.
pub cbor_unpack_uint-head :
    (t : MajorType) (v : ℕ) (rest : List ℕ) (b : Buffer)
    → v < 2 ^ 64
    → Ahead (head t v ++ rest) b
    → (cbor_unpack_uint b
        ≡ (if same_type cmt_uint t then ok (v, moved b (length (head t v))) else err eilseq))
      × (cbor_unpack_nint b
          ≡ (if same_type cmt_nint t then ok (v, moved b (length (head t v))) else err eilseq))
unfolding cbor_unpack_uint cbor_unpack_nint
cbor_unpack_uint-head t v rest b small a =
    (unpack_tmp t v rest small b cmt_uint a, unpack_tmp t v rest small b cmt_nint a)

-- The number less than zero by `n`.
abbrev pub minus : ℕ → ℤ
minus zero = pos zero
minus (suc n) = negsuc n

minus_ne : (v : ℕ) → minus v ≢ negsuc v
minus_ne zero e = cc
minus_ne (suc n) e = let s : suc n ≡ n = cc in omega arith

to_int64-minus : (v : ℕ) → v ≤ 2 ^ 63 → to_int64 ((2 ^ 64 - 1 - v + 1) % 2 ^ 64) ≡ minus v
unfolding to_int64
to_int64-minus zero h = refl
to_int64-minus (suc n) h =
    let bits : (2 ^ 64 - 1 - suc n + 1) % 2 ^ 64 ≡ 2 ^ 64 - 1 - n = omega arith in
    let high : ltb (2 ^ 64 - 1 - n) (2 ^ 63) ≡ false = ground arith in
    let back : 2 ^ 64 - 1 - (2 ^ 64 - 1 - n) ≡ n = omega arith in
    rw (bits, to_int64, high, back) refl

module _ (v : ℕ) (rest : List ℕ) (b : Buffer) (small : v < 2 ^ 64) where
  sync_tmp :
      (t : MajorType) (a : Ahead (head t v ++ rest) b)
      → sync_buffers b (behind (tmp_buffer b) t v) ≡ ok (behind b t v)
  sync_tmp t a =
      let (ahead, start) = tmp-Ahead (head t v ++ rest) b a in
      let last = behind (tmp_buffer b) t v in
      let off : last.off ≡ length (head t v) = omega (arith, start) in
      let long : last.off ≤ length (head t v ++ rest) =
        omega (arith, off, length-append (head t v) rest) in
      sync-Ahead (head t v ++ rest) b a last long ∙ ap (λ (k : ℕ). ok (moved b k)) off

  unpack_int_uint :
      Ahead (head cmt_uint v ++ rest) b
      → cbor_unpack_int b
        ≡ (if ltb (2 ^ 63 - 1) v then err eoverflow else ok (pos v, behind b cmt_uint v))
  unfolding cbor_unpack_int same_type
  unpack_int_uint a =
      let (ahead, start) = tmp-Ahead (head cmt_uint v ++ rest) b a in
      let read : cbor_unpack_uint (tmp_buffer b) ≡ ok (v, behind (tmp_buffer b) cmt_uint v) =
        (cbor_unpack_uint-head cmt_uint v rest (tmp_buffer b) small ahead).0 in
      rw (cbor_unpack_int, read, sync_tmp cmt_uint a) refl

  unpack_int_nint :
      Ahead (head cmt_nint v ++ rest) b
      → cbor_unpack_int b
        ≡ (if ltb (2 ^ 63) v then err eoverflow else ok (minus v, behind b cmt_nint v))
  unfolding cbor_unpack_int same_type
  unpack_int_nint a =
      let (ahead, start) = tmp-Ahead (head cmt_nint v ++ rest) b a in
      let items = cbor_unpack_uint-head cmt_nint v rest (tmp_buffer b) small ahead in
      let other : cbor_unpack_uint (tmp_buffer b) ≡ err eilseq = items.0 in
      let read : cbor_unpack_nint (tmp_buffer b) ≡ ok (v, behind (tmp_buffer b) cmt_nint v) =
        items.1 in
      rw (cbor_unpack_int, other, read)
        (elim (Bool-cases (ltb (2 ^ 63) v)) [
          | inl e ↦ rw e refl
          | inr e ↦ rw (e, sync_tmp cmt_nint a, to_int64-minus v (ground arith)) refl
        ])

-- In front of any bytes, `cbor_unpack_int` reads the item of a number of type CMT_UINT as that number
-- and moves the buffer behind the item, or fails with EOVERFLOW above INT64_MAX.
pub cbor_unpack_int-cmt_uint :
    (v : ℕ) (rest : List ℕ) (b : Buffer)
    → v < 2 ^ 64
    → Ahead (head cmt_uint v ++ rest) b
    → cbor_unpack_int b ≡ (
        if ltb (2 ^ 63 - 1) v
        then err eoverflow
        else ok (pos v, moved b (length (head cmt_uint v))))
cbor_unpack_int-cmt_uint v rest b small = unpack_int_uint v rest b small

-- In front of any bytes, `cbor_unpack_int` reads the item of type CMT_NINT with the number `v` as -v,
-- or fails with EOVERFLOW above INT64_MAX + 1. The item stands for -1 - v, and so the result is wrong
-- for every `v`.
pub cbor_unpack_int-cmt_nint :
    (v : ℕ) (rest : List ℕ) (b : Buffer)
    → v < 2 ^ 64
    → Ahead (head cmt_nint v ++ rest) b
    → (cbor_unpack_int b ≡ (
        if ltb (2 ^ 63) v then err eoverflow else ok (minus v, moved b (length (head cmt_nint v)))))
      × (minus v ≢ negsuc v)
cbor_unpack_int-cmt_nint v rest b small a = (unpack_int_nint v rest b small a, minus_ne v)
