-- ===== src/Cbor/Values/Tests.antt =====
-- A name-value list with an array and a text in it, packed and unpacked.
use libjeffpc.Base.{
  ◌≡◌, refl, true, false, some, [], ◌∷◌, arith, inr, cpu_to_be, ok, err, fault, enotsup,
}
use libjeffpc.Buffer.{Buffer, heap_buffer, buffer_append, resize, check_append, copyin}
use libjeffpc.Buffer.Example.{allocator, junk, junk_block}
use libjeffpc.Buffer.Wellformed.{IsWellformed}
use libjeffpc.Val.{
  Val, null_pointer, null, int, bool, str, array, nvl, no_vals, elem, no_pairs, pair, cons, strcmp,
}
use libjeffpc.Cbor.{
  mktype, append, pack_cbor_type_byte, pack_cbor_type, cbor_pack_uint, cbor_pack_null,
  cbor_pack_bool, cbor_pack_cstr_len, and_then, cbor_pack_array_start, cbor_pack_array_end,
  cbor_pack_map_start, cbor_pack_map_end,
}
use libjeffpc.Cbor.Reading.{moved}
use libjeffpc.Cbor.Values.{cbor_pack_str, cbor_pack_val, cbor_unpack_val}
use libjeffpc.Cbor.Values.Encode.{encode}
use libjeffpc.Cbor.Values.Decode.{IsReadable}
use libjeffpc.Cbor.Values.Whole.{cbor_unpack_val-cbor_pack_val}

abbrev empty : Buffer
empty = record { block = 0 ∷ []; off = 0; size = 0; allocsize = 1; ops = heap_buffer; heap = false }

empty-IsWellformed : IsWellformed empty
empty-IsWellformed = record {
  offset = omega arith;
  filled = omega arith;
  counted = omega arith;
  backed = inr (λ e. cc, omega arith);
}

abbrev list : Val
list = nvl (
    pair (97 ∷ []) (array (elem (int 1) (elem null (elem (bool true) no_vals))))
      (pair (98 ∷ []) (str (120 ∷ [])) no_pairs))

abbrev packed : Buffer
packed = record empty {
  block = 0xa2 ∷ 0x61 ∷ 97 ∷ 0x83 ∷ 1 ∷ 0xf6 ∷ 0xf5 ∷ 0x61 ∷ 98 ∷ 0x61 ∷ 120 ∷ [];
  size = 11;
  allocsize = 11;
}

list-packed : cbor_pack_val allocator empty list ≡ (ok tt, packed)
unfolding cbor_pack_val cbor_pack_str cpu_to_be mktype cbor_pack_uint cbor_pack_null cbor_pack_bool
    cbor_pack_cstr_len pack_cbor_type pack_cbor_type_byte append and_then buffer_append allocator
    junk_block junk resize check_append copyin cbor_pack_array_start cbor_pack_array_end
    cbor_pack_map_start cbor_pack_map_end
list-packed = refl

list-IsReadable : IsReadable list
unfolding IsReadable strcmp
list-IsReadable = (
  ((refl, tt), (tt, tt)),
  ((refl, tt), (omega arith, (tt, (tt, tt))), ((refl, tt), (refl, tt), tt)),
)

-- NULL is read through, and a cell has no item.
no_item :
    (cbor_pack_val allocator empty null_pointer ≡ (fault, empty))
    × (cbor_pack_val allocator empty (cons null null) ≡ (err enotsup, empty))
unfolding cbor_pack_val
no_item = (refl, refl)

cbor_unpack_val-cbor_pack_val_example :
    cbor_unpack_val allocator true 44 packed ≡ some (ok (list, moved packed 11))
unfolding encode cpu_to_be allocator
cbor_unpack_val-cbor_pack_val_example =
    cbor_unpack_val-cbor_pack_val allocator true empty packed list 44 (λ n e. cc) list-IsReadable
      empty-IsWellformed (λ e. cc) refl (omega arith) (omega arith) list-packed
