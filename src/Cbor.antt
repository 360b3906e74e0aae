-- ===== src/Cbor.antt =====
-- fmt_cbor.c and include/jeffpc/cbor.h: data items of CBOR, appended to a buffer and read from one.
-- A packing function returns its result with the buffer as it is then, which a failure may leave with
-- a part of the item. An unpacking function that fails leaves the buffer alone, so only a success
-- returns one. The ASSERTs of MKTYPE, which hold for every type and
-- the five bits that are passed, are left out.
pub mod Spec
pub mod Pack
pub mod Reading
pub mod Unpack
pub mod Values
mod Text
mod Floats
mod RoundTrip
mod Tests
use libjeffpc.Base.{
  ℕ, ◌+◌, ◌-◌, ◌*◌, ◌/◌, ◌%◌, ◌^◌, ℤ, pos, negsuc, to_int64, cpu_to_be, be_to_cpu, Bool, true,
  false, Option, none, some, List, [], ◌∷◌, ltb, leb, ◌==◌, if◌then◌else◌, set, bit_and, bit_or,
  Result, ok, err, panic, fault, ◌>>=◌, ◌>>◌, einval, eilseq, efault, eintr, enomem, enotsup,
  eoverflow,
}
use libjeffpc.Val.{ValType, vt_null, vt_int, vt_str, vt_bool, vt_blob, vt_array, vt_nvl}
use libjeffpc.Buffer.{
  Buffer, size_max, ssize_max, buffer_init_static, buffer_append, buffer_read, buffer_seek,
  seek_cur, buffer_remain, buffer_data_current,
}
use libjeffpc.Buffer.Memory.{Allocator, copy_in, copy_out}

pub data MajorType : Type 0 where
  cmt_uint cmt_nint cmt_byte cmt_text cmt_array cmt_map cmt_tag cmt_float : MajorType

abbrev pub type_number : MajorType → ℕ
type_number cmt_uint = 0
type_number cmt_nint = 1
type_number cmt_byte = 2
type_number cmt_text = 3
type_number cmt_array = 4
type_number cmt_map = 5
type_number cmt_tag = 6
type_number cmt_float = 7

-- The type of a number; a byte's three upper bits are no greater than 7.
abbrev pub type_of : ℕ → MajorType
type_of n =
    if (n == 0)
    then cmt_uint
    else if (n == 1)
    then cmt_nint
    else if (n == 2)
    then cmt_byte
    else if (n == 3)
    then cmt_text
    else if (n == 4)
    then cmt_array
    else if (n == 5)
    then cmt_map
    else if (n == 6)
    then cmt_tag
    else cmt_float

abbrev pub addl_float_false : ℕ
addl_float_false = 20

abbrev pub addl_float_true : ℕ
addl_float_true = 21

abbrev pub addl_float_null : ℕ
addl_float_null = 22

abbrev pub addl_indef : ℕ
addl_indef = 31

abbrev pub cbor_unknown_nelem : ℕ
cbor_unknown_nelem = 2 ^ 64 - 1

unfoldable pub mktype : MajorType → ℕ → ℕ
mktype t additional = bit_or (type_number t * 2 ^ 5) additional

-- A packing function's result and the buffer that it leaves.
abbrev pub Packed : Type 0
Packed = Result (Unit {0}) × Buffer

-- `if ((ret = ...)) return ret;`
unfoldable pub and_then : Packed → (Buffer → Packed) → Packed
and_then (ok done, b) next = next b
and_then (err e, b) next = (err e, b)
and_then (panic, b) next = (panic, b)
and_then (fault, b) next = (fault, b)

-- The size of the number behind the type byte, and what stands for it in the type byte.
abbrev pub addl_of : ℕ → ℕ × ℕ
addl_of additional =
    if leb additional 0xff
    then (1, 24)
    else if leb additional 0xffff
    then (2, 25)
    else if leb additional 0xffffffff
    then (4, 26)
    else (8, 27)

module _ (alloc : Allocator) where
  -- `buffer_append` with the buffer that it leaves.
  unfoldable pub append : Buffer → Option (List ℕ) → ℕ → Packed
  append b bytes n = elim (buffer_append alloc (some b) bytes n) [
    | ok b' ↦ (ok tt, b')
    | err e ↦ (err e, b)
    | panic ↦ (panic, b)
    | fault ↦ (fault, b)
  ]

  unfoldable pub pack_cbor_type_byte : Buffer → MajorType → ℕ → Packed
  pack_cbor_type_byte b t additional = append b (some (mktype t additional ∷ [])) 1

  unfoldable pub pack_cbor_type : Buffer → MajorType → ℕ → Packed
  pack_cbor_type b t additional =
      if leb additional 23
      then pack_cbor_type_byte b t additional
      else (let (size, addl) = addl_of additional in
          and_then (pack_cbor_type_byte b t addl)
            λ b'. append b' (some (cpu_to_be size additional)) size)

  unfoldable pub cbor_pack_uint : Buffer → ℕ → Packed
  cbor_pack_uint b v = pack_cbor_type b cmt_uint v

  unfoldable pub cbor_pack_nint : Buffer → ℕ → Packed
  cbor_pack_nint b v = (err enotsup, b)

  unfoldable pub cbor_pack_int : Buffer → ℤ → Packed
  unfolding cbor_pack_nint
  cbor_pack_int b (negsuc v) = cbor_pack_nint b (v + 1)
  cbor_pack_int b (pos v) = cbor_pack_uint b v

  unfoldable pub cbor_pack_blob : Buffer → Option (List ℕ) → ℕ → Packed
  cbor_pack_blob b bytes size = and_then (pack_cbor_type b cmt_byte size) λ b'. append b' bytes size

  unfoldable pub cbor_pack_cstr_len : Buffer → Option (List ℕ) → ℕ → Packed
  cbor_pack_cstr_len b str len = and_then (pack_cbor_type b cmt_text len) λ b'. append b' str len

  unfoldable pub cbor_pack_bool : Buffer → Bool → Packed
  cbor_pack_bool b v = pack_cbor_type b cmt_float (if v then addl_float_true else addl_float_false)

  unfoldable pub cbor_pack_null : Buffer → Packed
  cbor_pack_null b = pack_cbor_type b cmt_float addl_float_null

  unfoldable pub cbor_pack_break : Buffer → Packed
  cbor_pack_break b = append b (some (mktype cmt_float addl_indef ∷ [])) 1

  unfoldable pub cbor_pack_array_start : Buffer → ℕ → Packed
  cbor_pack_array_start b nelem =
      if (nelem == cbor_unknown_nelem)
      then append b (some (mktype cmt_array addl_indef ∷ [])) 1
      else pack_cbor_type b cmt_array nelem

  unfoldable pub cbor_pack_array_end : Buffer → ℕ → Packed
  cbor_pack_array_end b nelem =
      if (nelem == cbor_unknown_nelem) then cbor_pack_break b else (ok tt, b)

  unfoldable pub cbor_pack_map_start : Buffer → ℕ → Packed
  cbor_pack_map_start b npairs =
      if (npairs == cbor_unknown_nelem)
      then append b (some (mktype cmt_map addl_indef ∷ [])) 1
      else pack_cbor_type b cmt_map npairs

  unfoldable pub cbor_pack_map_end : Buffer → ℕ → Packed
  cbor_pack_map_end b npairs =
      if (npairs == cbor_unknown_nelem) then cbor_pack_break b else (ok tt, b)

-- What the first byte of an item says of its type.
unfoldable pub peek_byte : ℕ → Result ValType
peek_byte byte =
    let extra = bit_and byte 0x1f in
    elim (type_of (byte / 2 ^ 5)) [
      | cmt_uint ↦ ok vt_int
      | cmt_byte ↦ ok vt_blob
      | cmt_text ↦ ok vt_str
      | cmt_float ↦
          if (extra == addl_float_false)
          then ok vt_bool
          else if (extra == addl_float_true)
          then ok vt_bool
          else if (extra == addl_float_null)
          then ok vt_null
          else if (extra == addl_indef)
          then err eintr
          else err enotsup
      | cmt_array ↦ ok vt_array
      | cmt_map ↦ ok vt_nvl
      | cmt_nint ↦ err enotsup
      | cmt_tag ↦ err enotsup
    ]

unfoldable pub cbor_peek_type : Buffer → Result ValType
cbor_peek_type b =
    if ltb (buffer_remain b) 1
    then err efault
    else elim (buffer_data_current b) [ [] ↦ fault | byte ∷ rest ↦ peek_byte byte ]

unfoldable pub cbor_peek_break : Buffer → Result (Unit {0})
cbor_peek_break b = elim (cbor_peek_type b) [
  | ok t ↦ err eilseq
  | err eintr ↦ ok tt
  | err e ↦ err e
  | panic ↦ panic
  | fault ↦ fault
]

unfoldable pub read_cbor_type : Buffer → Result ((MajorType × ℕ) × Buffer)
read_cbor_type b = do
  (ret, bytes, b') ← buffer_read (some b) true 1
  if ltb ret 1 then err einval else elim bytes [
    | [] ↦ fault
    | byte ∷ rest ↦ ok ((type_of (byte / 2 ^ 5), bit_and byte 0x1f), b')
  ]

-- The size of the number behind the type byte.
abbrev pub size_of_addl : ℕ → Option ℕ
size_of_addl extra =
    if (extra == 24)
    then some 1
    else if (extra == 25)
    then some 2
    else if (extra == 26)
    then some 4
    else if (extra == 27)
    then some 8
    else if ltb 23 extra
    then none
    else some 0

unfoldable pub get_addl_bytes : Buffer → ℕ → Result (ℕ × Buffer)
get_addl_bytes b extra = elim (size_of_addl extra) [
  | none ↦ err einval
  | some size ↦ if ltb (buffer_remain b) size then err einval else (do
    bytes ← copy_out (buffer_data_current b) 0 size
    (off, b') ← buffer_seek (some b) (pos size) seek_cur
    ok (if (size == 0) then extra else be_to_cpu bytes, b'))
]

-- Two types compared by their numbers.
unfoldable pub same_type : MajorType → MajorType → Bool
same_type s t = type_number s == type_number t

unfoldable pub unpack_cbor_int : Buffer → MajorType → Result (ℕ × Buffer)
unpack_cbor_int b expected_type = do
  ((t, extra), b') ← read_cbor_type b
  if same_type expected_type t then get_addl_bytes b' extra else err eilseq

unfoldable pub unpack_cbor_float : Buffer → Result (ℕ × Buffer)
unpack_cbor_float b = do
  ((t, extra), b') ← read_cbor_type b
  if same_type t cmt_float
      then (if (extra == addl_float_false)
          then ok (extra, b')
          else if (extra == addl_float_true)
          then ok (extra, b')
          else if (extra == addl_float_null)
          then ok (extra, b')
          else if (extra == addl_indef)
          then ok (extra, b')
          else err eilseq)
      else err eilseq

-- The length, or 0 where it is indefinite, and whether the end is marked.
unfoldable pub unpack_cbor_arraymap_start : Buffer → MajorType → ℕ → Result ((ℕ × Bool) × Buffer)
unpack_cbor_arraymap_start b exp_type indef = do
  ((t, extra), b') ← read_cbor_type b
  if same_type t exp_type
      then (if (extra == indef)
          then ok ((0, true), b')
          else (get_addl_bytes b' extra >>= λ (len, b2). ok ((len, false), b2)))
      else err eilseq

unfoldable pub sync_buffers : Buffer → Buffer → Result Buffer
sync_buffers orig tmp = buffer_seek (some orig) (pos tmp.off) seek_cur >>= λ (off, b). ok b

-- The read-only buffer over the bytes that are left, on which each item is tried first.
unfoldable pub tmp_buffer : Buffer → Buffer
tmp_buffer b = buffer_init_static (buffer_data_current b) (buffer_remain b) (buffer_remain b) false

unfoldable pub cbor_unpack_uint : Buffer → Result (ℕ × Buffer)
cbor_unpack_uint b = do
  (v, tmp) ← unpack_cbor_int (tmp_buffer b) cmt_uint
  b' ← sync_buffers b tmp
  ok (v, b')

unfoldable pub cbor_unpack_nint : Buffer → Result (ℕ × Buffer)
cbor_unpack_nint b = do
  (v, tmp) ← unpack_cbor_int (tmp_buffer b) cmt_nint
  b' ← sync_buffers b tmp
  ok (v, b')

unfoldable pub cbor_unpack_int : Buffer → Result (ℤ × Buffer)
cbor_unpack_int b = elim (cbor_unpack_uint (tmp_buffer b)) [
  | ok (v, tmp) ↦
      if ltb (2 ^ 63 - 1) v then err eoverflow else (sync_buffers b tmp >>= λ b'. ok (pos v, b'))
  | err e ↦ cbor_unpack_nint (tmp_buffer b) >>= λ (v, tmp).
      if ltb (2 ^ 63 - 1 + 1) v
      then err eoverflow
      else (sync_buffers b tmp >>= λ b'. ok (to_int64 ((2 ^ 64 - 1 - v + 1) % 2 ^ 64), b'))
  | panic ↦ panic
  | fault ↦ fault
]

unfoldable pub cbor_unpack_blob : Buffer → Result ((List ℕ × ℕ) × Buffer)
cbor_unpack_blob b = err enotsup

-- The block that the text is stored in, and the text's length.
unfoldable pub cbor_unpack_cstr_len : Allocator → Buffer → Result ((List ℕ × ℕ) × Buffer)
cbor_unpack_cstr_len alloc b = do
  (parsed_len, tmp) ← unpack_cbor_int (tmp_buffer b) cmt_text
  if leb size_max parsed_len then err eoverflow else elim (alloc.malloc (parsed_len + 1)) [
    | none ↦ err enomem
    | some out ↦ do
      (ret, bytes, tmp2) ← buffer_read (some tmp) true parsed_len
      out2 ← copy_in out 0 bytes ret
      if (ret == parsed_len)
          then (sync_buffers b tmp2 >>= λ b'. ok ((set out2 parsed_len 0, parsed_len), b'))
          else err eilseq
  ]

unfoldable pub cbor_unpack_bool : Buffer → Result (Bool × Buffer)
cbor_unpack_bool b = do
  (extra, tmp) ← unpack_cbor_float (tmp_buffer b)
  if (extra == addl_float_false)
      then (sync_buffers b tmp >>= λ b'. ok (false, b'))
      else if (extra == addl_float_true)
      then (sync_buffers b tmp >>= λ b'. ok (true, b'))
      else err eilseq

unfoldable pub cbor_unpack_null : Buffer → Result Buffer
cbor_unpack_null b = do
  (extra, tmp) ← unpack_cbor_float (tmp_buffer b)
  if (extra == addl_float_null) then sync_buffers b tmp else err eilseq

unfoldable pub cbor_unpack_break : Buffer → Result Buffer
cbor_unpack_break b = do
  (extra, tmp) ← unpack_cbor_float (tmp_buffer b)
  if (extra == addl_indef) then sync_buffers b tmp else err eilseq

unfoldable pub cbor_unpack_map_start : Buffer → Result ((ℕ × Bool) × Buffer)
cbor_unpack_map_start b = do
  (start, tmp) ← unpack_cbor_arraymap_start (tmp_buffer b) cmt_map addl_indef
  b' ← sync_buffers b tmp
  ok (start, b')

unfoldable pub cbor_unpack_map_end : Buffer → Bool → Result Buffer
cbor_unpack_map_end b end_required = if end_required then cbor_unpack_break b else ok b

unfoldable pub cbor_unpack_array_start : Buffer → Result ((ℕ × Bool) × Buffer)
cbor_unpack_array_start b = do
  (start, tmp) ← unpack_cbor_arraymap_start (tmp_buffer b) cmt_array addl_indef
  b' ← sync_buffers b tmp
  ok (start, b')

unfoldable pub cbor_unpack_array_end : Buffer → Bool → Result Buffer
cbor_unpack_array_end b end_required = if end_required then cbor_unpack_break b else ok b
