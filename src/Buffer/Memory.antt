-- ===== src/Buffer/Memory.antt =====
-- Blocks of memory as lists of bytes: memcpy, memset, and the allocator that the C library provides.
use libjeffpc.Base.{
  ℕ, ◌+◌, ◌*◌, ◌/◌, ◌%◌, ◌^◌, ◌≤◌, ◌≡◌, ◌&&◌, Option, none, some, List, ◌++◌, leb, if◌then◌else◌,
  length, take, drop, replicate, Result, ok, fault,
}

-- `memcpy(dst + off, src, n)`
unfoldable pub copy_in : List ℕ → ℕ → List ℕ → ℕ → Result (List ℕ)
copy_in dst off src n =
    if leb n (length src) && leb (off + n) (length dst)
    then ok (take off dst ++ take n src ++ drop (off + n) dst)
    else fault

-- `memset(dst + off, 0, n)`
unfoldable pub clear_bytes : List ℕ → ℕ → ℕ → Result (List ℕ)
clear_bytes dst off n =
    if leb (off + n) (length dst)
    then ok (take off dst ++ replicate n 0 ++ drop (off + n) dst)
    else fault

-- `memcpy(out, src + off, n)`: the bytes that `out` gets.
unfoldable pub copy_out : List ℕ → ℕ → ℕ → Result (List ℕ)
copy_out src off n = if leb (off + n) (length src) then ok (take n (drop off src)) else fault

-- The C library's malloc and realloc, `none` being NULL. A block has the size that was asked for, and
-- a block that is resized keeps its bytes as far as both sizes go.
pub record Allocator : Type 0 where
  pub malloc : ℕ → Option (List ℕ)
  pub realloc : List ℕ → ℕ → Option (List ℕ)
  pub malloc_size : (n : ℕ) (block : List ℕ) → malloc n ≡ some block → length block ≡ n
  pub realloc_size : (old new : List ℕ) (n : ℕ) → realloc old n ≡ some new → length new ≡ n
  pub realloc_keeps :
      (old new : List ℕ) (n k : ℕ)
      → realloc old n ≡ some new
      → k ≤ length old
      → k ≤ n
      → take k new ≡ take k old

-- An array of pointers is its number of places, and gets memory where the allocator has a block of the
-- size. The size wraps, as `mem_reallocarray` does not check it where the C library has no reallocarray.
abbrev pub places : Option (List ℕ) → Option ℕ
places none = none
places (some block) = some (length block / 8)

unfoldable pub array_memory : Allocator → ℕ → Option ℕ
array_memory alloc nelem = places (alloc.malloc ((nelem * 8) % 2 ^ 64))
