-- ===== src/Cbor/Values/Start.antt =====
-- The first byte of an item, and the starts of arrays and maps.
use libjeffpc.Base.{
  ℕ, ◌+◌, ◌^◌, ◌≤◌, ◌<◌, ◌==◌, ==_iff, ◌≡◌, refl, ap, ◌∙◌, true, false, List, [], ◌∷◌, ◌++◌, arith,
  ltb, length, length-append, take, cpu_to_be, ok, fault, drop-append,
}
use mathlib.Core.Path.{subst}
use libjeffpc.Buffer.{Buffer, buffer_remain, buffer_data_current}
use libjeffpc.Cbor.{
  MajorType, cmt_array, cmt_map, type_number, mktype, addl_indef, peek_byte, cbor_peek_type,
  unpack_cbor_arraymap_start, same_type, sync_buffers, tmp_buffer, cbor_unpack_array_start,
  cbor_unpack_map_start,
}
use libjeffpc.Cbor.Spec.{form, head, form-Fits, type_of-mktype, bit_and-mktype, length-head}
use libjeffpc.Cbor.Reading.{
  Ahead, moved, moved-Ahead, remain-Ahead, current_starts, sync-Ahead, tmp-Ahead,
}
use libjeffpc.Cbor.Unpack.{read_type-Ahead, get_addl-Ahead}

first_byte :
    (byte : ℕ) (rest xs : List ℕ)
    → take (length (byte ∷ rest)) xs ≡ byte ∷ rest
    → elim xs [ [] ↦ fault | x ∷ ys ↦ peek_byte x ] ≡ peek_byte byte
first_byte byte rest [] h = absurd (cc)
first_byte byte rest (x ∷ ys) h = let same : x ≡ byte = cc in ap peek_byte same

pub cbor_peek_type-Ahead :
    (byte : ℕ) (rest : List ℕ) (b : Buffer)
    → Ahead (byte ∷ rest) b
    → cbor_peek_type b ≡ peek_byte byte
unfolding cbor_peek_type
cbor_peek_type-Ahead byte rest b a =
    let some_left : ltb (buffer_remain b) 1 ≡ false =
      ground (arith, remain-Ahead (byte ∷ rest) b a) in
    rw (cbor_peek_type, some_left)
      (first_byte byte rest (buffer_data_current b) (current_starts (byte ∷ rest) b a).0)

-- A buffer moved twice, and what is ahead behind the first of two parts.
pub moved-moved : (b : Buffer) (m n : ℕ) → moved (moved b m) n ≡ moved b (m + n)
moved-moved b m n =
    let e : b.off + m + n ≡ b.off + (m + n) = omega arith in ap (λ (k : ℕ). record b { off = k }) e

pub behind-Ahead : (x y : List ℕ) (b : Buffer) → Ahead (x ++ y) b → Ahead y (moved b (length x))
behind-Ahead x y b a =
    subst (λ bytes. Ahead bytes (moved b (length x))) (drop-append x y)
      (moved-Ahead (x ++ y) b a (length x) (omega (arith, length-append x y)))

module _ (t : MajorType) (v : ℕ) (rest : List ℕ) (b : Buffer) (small : v < 2 ^ 64)
    (a : Ahead (head t v ++ rest) b) where
  start-Ahead :
      unpack_cbor_arraymap_start (tmp_buffer b) t addl_indef
      ≡ ok ((v, false), moved (moved (tmp_buffer b) 1) (form v).0)
  unfolding unpack_cbor_arraymap_start same_type
  start-Ahead =
      let fits = form-Fits v small in
      let byte = mktype t (form v).1 in
      let tail = cpu_to_be (form v).0 v ++ rest in
      let (ahead, _) = tmp-Ahead (byte ∷ tail) b a in
      let next : Ahead tail (moved (tmp_buffer b) 1) =
        moved-Ahead (byte ∷ tail) (tmp_buffer b) ahead 1 (omega arith) in
      let same : same_type t t ≡ true = (==_iff (type_number t) (type_number t)).1 refl in
      let definite : ((form v).1 == addl_indef) ≡ false = ground (arith, fits.sized) in
      rw
        (
          unpack_cbor_arraymap_start,
          read_type-Ahead byte tail (tmp_buffer b) ahead,
          type_of-mktype t (form v).1 fits.low,
          bit_and-mktype t (form v).1 fits.low,
          same,
          definite,
          get_addl-Ahead v (form v).0 (form v).1 rest (moved (tmp_buffer b) 1) fits next,
        )
        refl

  start_sync :
      sync_buffers b (moved (moved (tmp_buffer b) 1) (form v).0) ≡ ok (moved b (length (head t v)))
  start_sync =
      let (_, start) = tmp-Ahead (head t v ++ rest) b a in
      let last = moved (moved (tmp_buffer b) 1) (form v).0 in
      let off : last.off ≡ length (head t v) = omega (arith, start, length-head t v) in
      let long : last.off ≤ length (head t v ++ rest) =
        omega (arith, off, length-append (head t v) rest) in
      sync-Ahead (head t v ++ rest) b a last long ∙ ap (λ (k : ℕ). ok (moved b k)) off

pub array_start-Ahead :
    (v : ℕ) (rest : List ℕ) (b : Buffer)
    → v < 2 ^ 64
    → Ahead (head cmt_array v ++ rest) b
    → cbor_unpack_array_start b ≡ ok ((v, false), moved b (length (head cmt_array v)))
unfolding cbor_unpack_array_start
array_start-Ahead v rest b small a =
    rw
      (
        cbor_unpack_array_start,
        start-Ahead cmt_array v rest b small a,
        start_sync cmt_array v rest b small a,
      )
      refl

pub map_start-Ahead :
    (v : ℕ) (rest : List ℕ) (b : Buffer)
    → v < 2 ^ 64
    → Ahead (head cmt_map v ++ rest) b
    → cbor_unpack_map_start b ≡ ok ((v, false), moved b (length (head cmt_map v)))
unfolding cbor_unpack_map_start
map_start-Ahead v rest b small a =
    rw
      (
        cbor_unpack_map_start,
        start-Ahead cmt_map v rest b small a,
        start_sync cmt_map v rest b small a,
      )
      refl
