-- ===== src/Buffer/Read.antt =====
-- `buffer_pread` copies out the bytes at an offset, as far as there are any, and a `pwrite` that wraps
-- leaves the block.
use libjeffpc.Base.{
  ℕ, ◌+◌, ◌-◌, ◌^◌, ◌≤◌, ◌<◌, ◌≡◌, ◌≢◌, refl, sym, ap, ◌∙◌, ◌⊎◌, inl, inr, true, some, List, [],
  arith, ltb, leb, if◌then◌else◌, length, take, drop, ok, err, enotsup, Bool-cases, take-take,
  take_all, length-take, fault, drop_all, take_nil, drop-take, length-drop,
}
use libjeffpc.Buffer.{
  heap_buffer, sink_buffer, static_buffer_rw, Buffer, add_size, resize, clear, check_write,
  buffer_pwrite, buffer_pread,
}
use libjeffpc.Buffer.Memory.{Allocator}
use libjeffpc.Buffer.Wellformed.{contents, IsWellformed}
use libjeffpc.Buffer.Write.{length-contents}
use libjeffpc.Buffer.Contents.{same_size_mod}

-- The number of bytes that a read returns.
abbrev count : Buffer → ℕ → ℕ → ℕ
count b len off = if leb b.size off then 0 else if ltb b.size (off + len) then b.size - off else len

module _ (b : Buffer) (len off : ℕ) (w : IsWellformed b) (h : off + len < 2 ^ 64) where
  pread_sink : b.ops ≡ sink_buffer → buffer_pread (some b) true len off ≡ err enotsup
  unfolding buffer_pread
  pread_sink e = ground arith

  pread_block :
      b.ops ≢ sink_buffer
      → b.size ≤ length b.block
      → buffer_pread (some b) true len off
        ≡ ok (count b len off, take (count b len off) (drop off b.block))
  unfolding buffer_pread
  pread_block e room = rw (same_size_mod (off + len) h) (ground arith)

  count_bytes :
      length (contents b) ≡ b.size
      → (take (count b len off) (drop off b.block) ≡ take len (drop off (contents b)))
        × (count b len off ≡ length (take len (drop off (contents b))))
  count_bytes size = elim (Bool-cases (leb b.size off)) [
    | inl behind ↦
        let none_left : drop off (contents b) ≡ [] = drop_all off (contents b) (ground arith) in
        rw (behind, none_left, take_nil {A = ℕ} len) (refl, refl)
    | inr inside ↦ elim (Bool-cases (ltb b.size (off + len))) [
      | inl over ↦
          let all : take len (drop off (contents b)) ≡ drop off (contents b) =
            take_all len (drop off (contents b)) (ground (arith, length-drop off (contents b))) in
          rw (inside, over, all)
            (sym (drop-take off b.size b.block), ground (arith, length-drop off (contents b)))
      | inr short ↦
          let part : take len (drop off (contents b)) ≡ take len (drop off b.block) =
            ap (take len) (drop-take off b.size b.block)
            ∙ take-take len (b.size - off) (drop off b.block) (ground arith) in
          (
            rw (inside, short, part),
            rw (inside, short)
                (ground
                  (arith, length-take len (drop off (contents b)), length-drop off (contents b))),
          )
    ]
  ]

-- Reading from a well-formed buffer, where offset and length do not add up to 2 ^ 64, fails with ENOTSUP
-- on a sink, and on any other kind returns the bytes that it holds from the offset on, at most `len` of
-- them, with their number. It never aborts and never leaves the block.
pub buffer_pread_lem :
    (b : Buffer) (len off : ℕ)
    → IsWellformed b
    → off + len < 2 ^ 64
    → ((b.ops ≡ sink_buffer) × (buffer_pread (some b) true len off ≡ err enotsup))
      ⊎ ((b.ops ≢ sink_buffer)
          × (buffer_pread (some b) true len off
              ≡ ok (length (take len (drop off (contents b))), take len (drop off (contents b)))))
buffer_pread_lem b len off w h = elim w.backed [
  | inl (sink, _) ↦ inl (sink, pread_sink b len off w h sink)
  | inr (ne, room) ↦
      let size = length-contents b w ne in
      let (bytes, n) = count_bytes b len off w h size in
      inr (ne, pread_block b len off w h ne (omega (arith, w.filled)) ∙ ap ok (λ i. (n i, bytes i)))
]

module _ (alloc : Allocator) (b : Buffer) (len off : ℕ) (around : ℕ) where
  check_wraps :
      (b.ops ≡ heap_buffer) ⊎ (b.ops ≡ static_buffer_rw)
      → add_size off len ≡ around
      → around ≤ b.allocsize
      → check_write b len off ≡ ok tt
  unfolding check_write
  check_wraps (inl e) a h = ground arith
  check_wraps (inr e) a h = ground arith

  resize_wraps : around ≤ b.allocsize → resize alloc b around ≡ ok b
  unfolding resize
  resize_wraps h = ground arith

  clear_faults :
      (b.ops ≡ heap_buffer) ⊎ (b.ops ≡ static_buffer_rw)
      → b.size ≤ off
      → length b.block < off
      → clear b b.size (off - b.size) ≡ fault
  unfolding clear
  clear_faults (inl e) s h = ground arith
  clear_faults (inr e) s h = ground arith

-- A write whose end wraps is not refused. On a well-formed buffer on the heap or over a writable
-- block, at an offset behind the block, with a length that leads past 2 ^ 64 and around to
-- `allocsize` at most, the write passes its check, the resize leaves the buffer as it is, and the
-- write then accesses memory outside of the block.
pub buffer_pwrite_wraps :
    (alloc : Allocator) (b : Buffer) (bytes : List ℕ) (len off : ℕ)
    → IsWellformed b
    → (b.ops ≡ heap_buffer) ⊎ (b.ops ≡ static_buffer_rw)
    → length b.block < off
    → 2 ^ 64 ≤ off + len
    → off + len ≤ 2 ^ 64 + b.allocsize
    → (check_write b len off ≡ ok tt)
      × (resize alloc b (add_size off len) ≡ ok b)
      × (buffer_pwrite alloc (some b) (some bytes) len off ≡ fault)
unfolding buffer_pwrite
buffer_pwrite_wraps alloc b bytes len off w kind behind wraps short =
    let n = off + len - 2 ^ 64 in
    let around : add_size off len ≡ n = omega (arith, w.counted) in
    let room : b.allocsize ≤ length b.block = ground (arith, w.backed) in
    let gap : ltb b.size off ≡ true = ground (arith, w.filled) in
    let checked = check_wraps alloc b len off n kind around (omega arith) in
    let resized = resize_wraps alloc b len off n (omega arith) in
    (
      checked,
      rw (around, resized) refl,
      rw
          (
            checked,
            around,
            resized,
            gap,
            clear_faults alloc b len off n kind (ground (arith, w.filled)) behind,
          )
          refl,
    )
