-- ===== src/Buffer/Tests.antt =====
-- An allocator, runs of the buffer over it, and the theorems at concrete buffers.
use libjeffpc.Base.{
  negsuc, ℕ, ◌-◌, ◌^◌, ◌≤◌, ◌≡◌, ◌≢◌, refl, ◌⊎◌, inl, inr, true, false, some, [], ◌∷◌, arith,
  length, take, drop, ok, err, fault, enotsup, eoverflow, einval, leb, if◌then◌else◌, codes,
}
use libjeffpc.Buffer.{
  heap_buffer, sink_buffer, Buffer, buffer_append, buffer_truncate, buffer_pwrite, buffer_pread,
  buffer_seek, add_size, resize, check_write, copyin, clear, seek_cur, seek_end, seek_target,
  ssize_max,
}
use libjeffpc.Buffer.Example.{allocator, junk, junk_block}
use libjeffpc.Buffer.Wellformed.{IsWellformed, contents}
use libjeffpc.Buffer.Contents.{Does}
use libjeffpc.Buffer.Append.{buffer_append-Does}
use libjeffpc.Buffer.Write.{overwritten, buffer_pwrite-Does}
use libjeffpc.Buffer.Truncate.{cut, buffer_truncate-Does}
use libjeffpc.Buffer.Read.{buffer_pread_lem, buffer_pwrite_wraps}
use libjeffpc.Buffer.Seek.{origin, Reaches, buffer_seek_lem}

-- Three bytes in a block of four.
abbrev abc : Buffer
abc = record {
  block = b'a' ∷ b'b' ∷ b'c' ∷ 0 ∷ [];
  off = 1;
  size = 3;
  allocsize = 4;
  ops = heap_buffer;
  heap = false;
}

abc-IsWellformed : IsWellformed abc
abc-IsWellformed = record {
  offset = omega arith;
  filled = omega arith;
  counted = omega arith;
  backed = inr (λ e. cc, omega arith);
}

append_grows :
    buffer_append allocator (some abc) (some (b'd' ∷ b'e' ∷ [])) 2
    ≡ ok (record abc { block = b'a' ∷ b'b' ∷ b'c' ∷ b'd' ∷ b'e' ∷ []; size = 5; allocsize = 5 })
unfolding buffer_append allocator junk_block junk resize
append_grows = refl

pwrite_fills_gap :
    buffer_pwrite allocator (some (record abc { size = 1; off = 0 })) (some (b'z' ∷ [])) 1 3
    ≡ ok (1, record abc { block = b'a' ∷ 0 ∷ 0 ∷ b'z' ∷ []; size = 4; off = 0 })
unfolding buffer_pwrite resize check_write copyin clear
pwrite_fills_gap = refl

pread_to_end : buffer_pread (some abc) true 9 1 ≡ ok (2, b'b' ∷ b'c' ∷ [])
unfolding buffer_pread
pread_to_end = refl

seek_before_start : buffer_seek (some abc) (negsuc 1) seek_cur ≡ err einval
unfolding buffer_seek seek_target
seek_before_start = refl

buffer_append-Does_example :
    Does abc 5 5 1
      (codes "abcde")
      (λ b'. b')
      (buffer_append allocator (some abc) (some (codes "de")) 2)
buffer_append-Does_example =
    buffer_append-Does allocator abc (codes "de") abc-IsWellformed (omega arith)

buffer_pwrite-Does_example :
    Does abc 7 7 1
      (overwritten (codes "abc") 5 (codes "de"))
      (λ b'. (2, b'))
      (buffer_pwrite allocator (some abc) (some (codes "de")) 2 5)
buffer_pwrite-Does_example =
    buffer_pwrite-Does allocator abc (codes "de") 5 abc-IsWellformed (omega arith)

buffer_truncate-Does_example :
    Does abc 6 6 1 (cut (codes "abc") 6) (λ b'. b') (buffer_truncate allocator (some abc) 6)
buffer_truncate-Does_example = buffer_truncate-Does allocator abc 6 abc-IsWellformed (omega arith)

buffer_pread_lem_example :
    ((heap_buffer ≡ sink_buffer) × (buffer_pread (some abc) true 9 1 ≡ err enotsup))
    ⊎ ((heap_buffer ≢ sink_buffer)
        × (buffer_pread (some abc) true 9 1
            ≡ ok (length (take 9 (drop 1 (contents abc))), take 9 (drop 1 (contents abc)))))
buffer_pread_lem_example = buffer_pread_lem abc 9 1 abc-IsWellformed (omega arith)

buffer_pwrite_wraps_example :
    (check_write abc 2 (2 ^ 64 - 1) ≡ ok tt)
    × (resize allocator abc (add_size (2 ^ 64 - 1) 2) ≡ ok abc)
    × (buffer_pwrite allocator (some abc) (some (codes "de")) 2 (2 ^ 64 - 1) ≡ fault)
buffer_pwrite_wraps_example =
    buffer_pwrite_wraps allocator abc (codes "de") 2 (2 ^ 64 - 1) abc-IsWellformed (inl refl)
      (omega arith) (omega arith) (omega arith)

buffer_seek_lem_example :
    ((t : ℕ) × Reaches (origin abc seek_end) (negsuc 1) t
      × (t ≤ 3)
      × (buffer_seek (some abc) (negsuc 1) seek_end
          ≡ (if leb t ssize_max then ok (t, record abc { off = t }) else err eoverflow)))
    ⊎ (((t : ℕ) → t ≤ 3 → ¬ Reaches (origin abc seek_end) (negsuc 1) t)
        × (buffer_seek (some abc) (negsuc 1) seek_end ≡ err einval))
buffer_seek_lem_example = buffer_seek_lem abc (negsuc 1) seek_end abc-IsWellformed (λ e. cc)
