-- ===== src/Buffer.antt =====
-- buffer.c, buffer_heap.c, buffer_static.c, buffer_sink.c and include/jeffpc/buffer.h: a growable
-- sequence of bytes behind one interface. `struct buffer` is a record and the table of operations is
-- named by its kind. A size_t is a number below 2 ^ 64, and sums of two wrap. A function that fails
-- leaves the buffer as it was, so only a success returns one. The buffers over a FILE are not
-- modelled.
pub mod Memory
mod Lemmas
pub mod Wellformed
pub mod Contents
pub mod Append
pub mod Write
pub mod Truncate
pub mod Read
pub mod Seek
pub mod Example
mod Tests
use libjeffpc.Base.{
  ℤ, pos, negsuc, ℕ, zero, suc, ◌+◌, ◌-◌, ◌*◌, ◌%◌, ◌^◌, ◌≤◌, ◌<◌, ◌≡◌, Bool, true, false, ◌&&◌,
  not, Option, none, some, List, [], ltb, leb, ◌==◌, if◌then◌else◌, length, drop, Result, ok, err,
  panic, fault, ◌>>=◌, ◌>>◌, einval, enomem, enotsup, erofs, enospc, eoverflow,
}
use Prim.Native.Nat.{min, max}
use Memory.{copy_in, clear_bytes, copy_out, Allocator}

pub data Ops : Type 0 where
  heap_buffer sink_buffer static_buffer_ro static_buffer_rw : Ops

pub record Buffer : Type 0 where
  pub block : List ℕ
  pub off : ℕ
  pub size : ℕ
  pub allocsize : ℕ
  pub ops : Ops
  pub heap : Bool

abbrev pub size_max : ℕ
size_max = 2 ^ 64 - 1

abbrev pub ssize_max : ℕ
ssize_max = 2 ^ 63 - 1

-- size_t a + b and a - b.
abbrev pub add_size : ℕ → ℕ → ℕ
add_size a b = (a + b) % 2 ^ 64

abbrev pub sub_size : ℕ → ℕ → ℕ
sub_size a b = (a + 2 ^ 64 - b) % 2 ^ 64

-- The operations of each kind. `check` is what a check returns, 0 being `ok`.

unfoldable pub check_append : Buffer → ℕ → Result (Unit {0})
check_append b n = elim b.ops [
  | static_buffer_ro ↦ err erofs
  | static_buffer_rw ↦ if leb (add_size b.size n) b.allocsize then ok tt else err enospc
  | _ ↦ ok tt
]

unfoldable pub check_read : Buffer → Result (Unit {0})
check_read b = elim b.ops [ sink_buffer ↦ err enotsup | _ ↦ ok tt ]

unfoldable pub check_truncate : Buffer → ℕ → Result (Unit {0})
check_truncate b n = elim b.ops [
  | static_buffer_ro ↦ err erofs
  | static_buffer_rw ↦ if leb n b.allocsize then ok tt else err enospc
  | _ ↦ ok tt
]

unfoldable pub check_write : Buffer → ℕ → ℕ → Result (Unit {0})
check_write b len off = elim b.ops [
  | static_buffer_ro ↦ err erofs
  | static_buffer_rw ↦ if leb (add_size off len) b.allocsize then ok tt else err enospc
  | _ ↦ ok tt
]

unfoldable pub clear : Buffer → ℕ → ℕ → Result Buffer
unfolding clear_bytes
clear b off len = elim b.ops [
  | sink_buffer ↦ ok b
  | static_buffer_ro ↦ panic
  | _ ↦ clear_bytes b.block off len >>= λ block. ok (record b { block = block })
]

unfoldable pub copyin : Buffer → ℕ → List ℕ → ℕ → Result Buffer
unfolding copy_in
copyin b off new len = elim b.ops [
  | sink_buffer ↦ ok b
  | static_buffer_ro ↦ panic
  | _ ↦ copy_in b.block off new len >>= λ block. ok (record b { block = block })
]

unfoldable pub copyout : Buffer → ℕ → ℕ → Result (List ℕ)
unfolding copy_out
copyout b off len = elim b.ops [ sink_buffer ↦ panic | _ ↦ copy_out b.block off len ]

unfoldable pub buffer_init_sink : Buffer
buffer_init_sink = record {
  block = [];
  off = 0;
  size = 0;
  allocsize = size_max;
  ops = sink_buffer;
  heap = false;
}

-- The ASSERT3U that `size` is at most `bufsize` is for the caller to keep and is left out: every call of it
-- that is modelled passes one number for both.
unfoldable pub buffer_init_static : List ℕ → ℕ → ℕ → Bool → Buffer
buffer_init_static block size bufsize writable = record {
  block = block;
  off = 0;
  size = size;
  allocsize = bufsize;
  ops = if writable then static_buffer_rw else static_buffer_ro;
  heap = false;
}

unfoldable pub buffer_remain : Buffer → ℕ
buffer_remain b = sub_size b.size b.off

-- The memory from the offset on, of which NULL has none.
unfoldable pub buffer_data_current : Buffer → List ℕ
buffer_data_current b = if (b.off == b.size) then [] else drop b.off b.block

-- NULL pointers are `none`.
unfoldable pub buffer_pread : Option Buffer → Bool → ℕ → ℕ → Result (ℕ × List ℕ)
unfolding check_read copyout
buffer_pread none buf len off = err einval
buffer_pread (some b) buf len off = if not buf then err einval else (do
  check_read b
  let ret =
      if leb b.size off then 0 else if ltb b.size (add_size off len) then b.size - off else len
  if (ret == 0) then ok (0, []) else (copyout b off ret >>= λ bytes. ok (ret, bytes)))

pub data Whence : Type 0 where
  seek_set seek_cur seek_end other_whence : Whence

-- The `switch` of a seek: the new offset, modulo 2 ^ 64. A comparison of an `off_t` with a `size_t` is
-- one of unsigned numbers, and the signs are tested before.
unfoldable pub seek_target : Buffer → ℤ → Whence → Result ℕ
seek_target b (pos n) seek_set = if ltb b.size n then err einval else ok n
seek_target b (negsuc n) seek_set = err einval
seek_target b (pos n) seek_cur =
    if ltb 0 n && ltb (sub_size b.size b.off) n then err einval else ok (add_size b.off n)
seek_target b (negsuc n) seek_cur =
    if ltb b.off (n + 1) then err einval else ok (sub_size b.off (n + 1))
seek_target b (pos n) seek_end = if ltb 0 n then err einval else ok (add_size b.size n)
seek_target b (negsuc n) seek_end =
    if ltb b.size (n + 1) then err einval else ok (sub_size b.size (n + 1))
seek_target b offset other_whence = err einval

-- No kind that is modelled has a `check_seek`.
unfoldable pub buffer_seek : Option Buffer → ℤ → Whence → Result (ℕ × Buffer)
buffer_seek none offset whence = err einval
buffer_seek (some b) offset whence = do
  newoff ← seek_target b offset whence
  if ltb ssize_max newoff then err eoverflow else ok (newoff, record b { off = newoff })

unfoldable pub buffer_read : Option Buffer → Bool → ℕ → Result (ℕ × List ℕ × Buffer)
buffer_read none buf len = err einval
buffer_read (some b) buf len = do
  (ret, bytes) ← buffer_pread (some b) buf len b.off
  ok (ret, bytes, record b { off = add_size b.off ret })

module _ (alloc : Allocator) where
  unfoldable pub buffer_init_heap : ℕ → Result Buffer
  buffer_init_heap expected_size =
      elim (alloc.malloc (if (expected_size == 0) then 1 else expected_size)) [
        | none ↦ err enomem
        | some block ↦ ok (record {
          block = block;
          off = 0;
          size = 0;
          allocsize = expected_size;
          ops = heap_buffer;
          heap = false;
        })
      ]

  -- `got` says whether there was memory for the structure itself.
  unfoldable pub buffer_alloc : Bool → ℕ → Result Buffer
  unfolding buffer_init_heap
  buffer_alloc got expected_size =
      if not got
      then err enomem
      else (buffer_init_heap expected_size >>= λ b. ok (record b { heap = true }))

  unfoldable pub resize : Buffer → ℕ → Result Buffer
  resize b newsize = if leb newsize b.allocsize then ok b else elim b.ops [
    | heap_buffer ↦ elim (alloc.realloc b.block newsize) [
      | none ↦ err enomem
      | some block ↦ ok (record b { block = block; allocsize = newsize })
    ]
    | _ ↦ err enotsup
  ]

  -- `data` points to `size` bytes at least, or is NULL.
  unfoldable pub buffer_append : Option Buffer → Option (List ℕ) → ℕ → Result Buffer
  unfolding check_append copyin
  buffer_append none bytes size = err einval
  buffer_append (some b) none size =
      if (size == 0) then (check_append b size >> ok b) else err einval
  buffer_append (some b) (some bytes) size = do
    check_append b size
    if (size == 0) then ok b else (do
      b1 ← resize b (add_size b.size size)
      b2 ← copyin b1 b1.size bytes size
      ok (record b2 { size = add_size b2.size size }))

  unfoldable pub buffer_truncate : Option Buffer → ℕ → Result Buffer
  unfolding check_truncate clear
  buffer_truncate none size = err einval
  buffer_truncate (some b) size = do
    check_truncate b size
    b1 ← resize b size
    b2 ← if ltb b1.size size then clear b1 b1.size (size - b1.size) else ok b1
    ok (record b2 { size = size; off = min b2.off size })

  unfoldable pub buffer_pwrite : Option Buffer → Option (List ℕ) → ℕ → ℕ → Result (ℕ × Buffer)
  buffer_pwrite none buf len off = err einval
  buffer_pwrite (some b) none len off = err einval
  buffer_pwrite (some b) (some bytes) len off = do
    check_write b len off
    b1 ← resize b (add_size off len)
    b2 ← if ltb b1.size off then clear b1 b1.size (off - b1.size) else ok b1
    b3 ← copyin b2 off bytes len
    ok (len, record b3 { size = max b3.size (add_size off len) })

  unfoldable pub buffer_write : Option Buffer → Option (List ℕ) → ℕ → Result (ℕ × Buffer)
  buffer_write none buf len = err einval
  buffer_write (some b) buf len = do
    (ret, b1) ← buffer_pwrite (some b) buf len b.off
    ok (ret, record b1 { off = add_size b1.off ret })
