-- ===== src/Cbor/Tests.antt =====
-- Packing and unpacking at concrete buffers.
use libjeffpc.Base.{
  ◌≢◌, ◌≤◌, ◌⊎◌, inr, none, ◌++◌, arith, take_all, eilseq, enomem, ℕ, ◌≡◌, refl, pos, negsuc, true,
  false, some, List, [], ◌∷◌, ok, err, codes, length, if◌then◌else◌, cpu_to_be, be_to_cpu, to_int64,
  be_or,
}
use libjeffpc.Buffer.{
  Buffer, heap_buffer, static_buffer_ro, buffer_append, buffer_read, buffer_pread, buffer_seek,
  seek_target, resize, copyin, check_append, buffer_remain, buffer_data_current, buffer_init_static,
}
use libjeffpc.Buffer.{ssize_max}
use libjeffpc.Buffer.Example.{allocator, junk, junk_block}
use libjeffpc.Buffer.Wellformed.{IsWellformed}
use libjeffpc.Cbor.Spec.{head, shortest}
use libjeffpc.Cbor.Reading.{Ahead, moved}
use libjeffpc.Cbor.Pack.{Packs, cbor_pack_uint-Packs, cbor_pack_cstr_len-Packs}
use libjeffpc.Cbor.Unpack.{
  cbor_unpack_uint-head, cbor_unpack_int-cmt_uint, cbor_unpack_int-cmt_nint,
}
use libjeffpc.Cbor.RoundTrip.{cbor_unpack_uint-cbor_pack_uint}
use libjeffpc.Cbor.{cbor_unpack_bool, cbor_unpack_null, cbor_unpack_break}
use libjeffpc.Cbor.Floats.{cbor_unpack_bool_lem}
use libjeffpc.Base.{inl}
use libjeffpc.Cbor.Text.{cbor_unpack_cstr_len_lem}
use libjeffpc.Cbor.{
  cmt_uint, cmt_nint, cmt_text, cmt_byte, cmt_float, cbor_pack_blob, cbor_pack_bool, cbor_pack_null,
  cbor_pack_cstr_len, cbor_unpack_cstr_len, mktype, append, pack_cbor_type_byte, pack_cbor_type,
  cbor_pack_uint, and_then, unpack_cbor_int, read_cbor_type, get_addl_bytes, sync_buffers,
  tmp_buffer, cbor_unpack_uint, cbor_unpack_nint, cbor_unpack_int, same_type,
}

-- A read-only buffer over some bytes.
abbrev over : List ℕ → Buffer
over bytes = record {
  block = bytes;
  off = 0;
  size = length bytes;
  allocsize = length bytes;
  ops = static_buffer_ro;
  heap = false;
}

over-Ahead : (bytes : List ℕ) → length bytes ≤ ssize_max → Ahead bytes (over bytes)
over-Ahead bytes h = record {
  wellformed = record {
    offset = omega arith;
    filled = omega arith;
    counted = omega arith;
    backed = inr (λ e. cc, omega arith);
  };
  readable = λ e. cc;
  counted = h;
  ahead = take_all (length bytes) bytes (omega arith);
}

unpack_300 :
    cbor_unpack_uint (over (0x19 ∷ 1 ∷ 44 ∷ 7 ∷ []))
    ≡ ok (300, record (over (0x19 ∷ 1 ∷ 44 ∷ 7 ∷ [])) { off = 3 })
unfolding cbor_unpack_uint unpack_cbor_int read_cbor_type get_addl_bytes sync_buffers tmp_buffer
    buffer_read buffer_pread buffer_seek seek_target buffer_remain buffer_data_current
    buffer_init_static be_to_cpu be_or same_type
unpack_300 = refl

-- The item 0x20 is the number -1.
unpack_minus_one :
    cbor_unpack_int (over (0x20 ∷ [])) ≡ ok (pos 0, record (over (0x20 ∷ [])) { off = 1 })
unfolding cbor_unpack_int to_int64 cbor_unpack_nint cbor_unpack_uint unpack_cbor_int read_cbor_type
    get_addl_bytes sync_buffers tmp_buffer buffer_read buffer_pread buffer_seek seek_target
    buffer_remain buffer_data_current buffer_init_static be_to_cpu be_or same_type
unpack_minus_one = refl

-- The number 300 and one more byte; the item 0x20 and one more byte; a text and one more byte.
abbrev item_300 : List ℕ
item_300 = head cmt_uint 300 ++ 7 ∷ []

abbrev item_nint : List ℕ
item_nint = head cmt_nint 0 ++ 7 ∷ []

abbrev item_abc : List ℕ
item_abc = head cmt_text 3 ++ (codes "abc" ++ 7 ∷ [])

cbor_unpack_uint-head_example :
    (cbor_unpack_uint (over item_300) ≡ ok (300, moved (over item_300) 3))
    × (cbor_unpack_nint (over item_300) ≡ err eilseq)
unfolding same_type cpu_to_be mktype
cbor_unpack_uint-head_example =
    cbor_unpack_uint-head cmt_uint 300 (7 ∷ []) (over item_300) (omega arith)
      (over-Ahead item_300 (omega arith))

cbor_unpack_int-cmt_uint_example :
    cbor_unpack_int (over item_300) ≡ ok (pos 300, moved (over item_300) 3)
unfolding cpu_to_be mktype
cbor_unpack_int-cmt_uint_example =
    cbor_unpack_int-cmt_uint 300 (7 ∷ []) (over item_300) (omega arith)
      (over-Ahead item_300 (omega arith))

cbor_unpack_int-cmt_nint_example :
    (cbor_unpack_int (over item_nint) ≡ ok (pos 0, moved (over item_nint) 1)) × (pos 0 ≢ negsuc 0)
unfolding cpu_to_be mktype
cbor_unpack_int-cmt_nint_example =
    cbor_unpack_int-cmt_nint 0 (7 ∷ []) (over item_nint) (omega arith)
      (over-Ahead item_nint (omega arith))

-- A buffer on the heap with nothing in it and room for one byte.
abbrev empty : Buffer
empty = record { block = 0 ∷ []; off = 0; size = 0; allocsize = 1; ops = heap_buffer; heap = false }

empty-IsWellformed : IsWellformed empty
empty-IsWellformed = record {
  offset = omega arith;
  filled = omega arith;
  counted = omega arith;
  backed = inr (λ e. cc, omega arith);
}

cbor_pack_uint-Packs_example :
    Packs empty (shortest 0 300) (cbor_pack_uint allocator empty 300)
    × Packs empty ((if true then 0xf5 else 0xf4) ∷ []) (cbor_pack_bool allocator empty true)
    × Packs empty (0xf6 ∷ []) (cbor_pack_null allocator empty)
cbor_pack_uint-Packs_example =
    cbor_pack_uint-Packs allocator empty 300 true empty-IsWellformed (omega arith)

cbor_pack_cstr_len-Packs_example :
    Packs empty
      (head cmt_text 3 ++ codes "abc")
      (cbor_pack_cstr_len allocator empty (some (codes "abc")) 3)
    × Packs empty
        (head cmt_byte 3 ++ codes "abc")
        (cbor_pack_blob allocator empty (some (codes "abc")) 3)
cbor_pack_cstr_len-Packs_example =
    cbor_pack_cstr_len-Packs allocator empty (codes "abc") empty-IsWellformed (omega arith)

abbrev packed_300 : Buffer
packed_300 = record empty { block = 0x19 ∷ 1 ∷ 44 ∷ []; size = 3; allocsize = 3 }

reads_packed_300 : cbor_unpack_uint packed_300 ≡ ok (300, moved packed_300 3)
unfolding cpu_to_be mktype cbor_pack_uint pack_cbor_type pack_cbor_type_byte append and_then
    buffer_append allocator junk_block junk resize check_append copyin
reads_packed_300 =
    cbor_unpack_uint-cbor_pack_uint allocator empty packed_300 300 empty-IsWellformed (λ e. cc) refl
      (omega arith) (omega arith) refl

cbor_unpack_cstr_len_lem_example :
    ((allocator.malloc 4 ≡ none) × (cbor_unpack_cstr_len allocator (over item_abc) ≡ err enomem))
    ⊎ (cbor_unpack_cstr_len allocator (over item_abc)
        ≡ ok ((codes "abc" ++ 0 ∷ [], 3), moved (over item_abc) 4))
unfolding cpu_to_be mktype
cbor_unpack_cstr_len_lem_example =
    cbor_unpack_cstr_len_lem allocator (codes "abc") (7 ∷ []) (over item_abc)
      (over-Ahead item_abc (omega arith))

abbrev item_true : List ℕ
item_true = mktype cmt_float 21 ∷ 7 ∷ []

cbor_unpack_bool_lem_example :
    (cbor_unpack_bool (over item_true) ≡ ok (true, moved (over item_true) 1))
    × (cbor_unpack_null (over item_true) ≡ err eilseq)
    × (cbor_unpack_break (over item_true) ≡ err eilseq)
cbor_unpack_bool_lem_example =
    cbor_unpack_bool_lem 21 (7 ∷ []) (over item_true) (inr (inl refl))
      (over-Ahead item_true (omega arith))
