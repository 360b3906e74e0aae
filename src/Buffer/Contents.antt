-- ===== src/Buffer/Contents.antt =====
-- What the operations do to the bytes that a buffer holds, on every kind and every branch.
use libjeffpc.Base.{
  ℕ, ◌+◌, ◌%◌, ◌^◌, ◌≤◌, ◌<◌, ◌≡◌, ◌≢◌, ◌⊎◌, inl, inr, List, arith, leb, Result, ok, err, ◌>>=◌,
  ◌>>◌, enomem, erofs, enospc, Bool-cases,
}
use libjeffpc.Buffer.{
  heap_buffer, sink_buffer, static_buffer_ro, static_buffer_rw, Buffer, resize, check_append,
  check_truncate, check_write,
}
use libjeffpc.Buffer.Memory.{Allocator}
use libjeffpc.Buffer.Wellformed.{
  contents, IsWellformed, IsWritable, Grown, resize-Resized, ops_cases,
}

-- The new buffer: of the same kind, well formed, with this size, this offset and, if it is no sink,
-- these bytes.
pub record Holds (b : Buffer) (size off : ℕ) (bytes : List ℕ) (b' : Buffer) : Type 0 where
  pub wellformed : IsWellformed b'
  pub same_ops : b'.ops ≡ b.ops
  pub size_is : b'.size ≡ size
  pub off_is : b'.off ≡ off
  pub held : (b.ops ≡ sink_buffer) ⊎ (contents b' ≡ bytes)

-- All that an operation which needs room for `need` bytes can do: a buffer that is read-only refuses
-- with EROFS, one that is static and too short with ENOSPC, one on the heap may be out of memory where
-- it has to grow, and else the result `r` is `ok` of `f b'` for a new buffer `b'`.
abbrev pub Does {ℓ} : {A : Type ℓ} → Buffer → ℕ → ℕ → ℕ → List ℕ → (Buffer → A) → Result A → Type ℓ
Does b need size off bytes f r =
    ((b.ops ≡ static_buffer_ro) × (r ≡ err erofs))
    ⊎ ((b.ops ≡ static_buffer_rw) × (b.allocsize < need) × (r ≡ err enospc))
    ⊎ ((b.ops ≡ heap_buffer) × (b.allocsize < need) × (r ≡ err enomem))
    ⊎ ((b' : Buffer) × (r ≡ ok (f b')) × Holds b size off bytes b')

pub same_size_mod : (n : ℕ) → n < 2 ^ 64 → n % 2 ^ 64 ≡ n
same_size_mod n h = omega arith

-- What a check of the room for `need` bytes may return.
abbrev pub Checked : Buffer → ℕ → Result (Unit {0}) → Type 0
Checked b need c =
    ((b.ops ≡ static_buffer_ro) × (c ≡ err erofs))
    ⊎ ((b.ops ≡ static_buffer_rw) × (b.allocsize < need) × (c ≡ err enospc))
    ⊎ (IsWritable b × ((b.ops ≢ static_buffer_rw) ⊎ (need ≤ b.allocsize)) × (c ≡ ok tt))

module _ (b : Buffer) (n : ℕ) where
  pub append_Checked : b.size + n < 2 ^ 64 → Checked b (b.size + n) (check_append b n)
  unfolding check_append
  append_Checked h = elim (ops_cases b.ops) [
    | inl e ↦ inr (inr (cc, inl (cc), ground arith))
    | inr (inl e) ↦ inr (inr (cc, inl (cc), ground arith))
    | inr (inr (inl e)) ↦ inl (e, ground arith)
    | inr (inr (inr e)) ↦ elim (Bool-cases (leb (b.size + n) b.allocsize)) [
      | inl fits ↦ inr (inr (cc, inr (ground arith), ground arith))
      | inr full ↦ inr (inl (e, ground arith, ground arith))
    ]
  ]

  pub truncate_Checked : Checked b n (check_truncate b n)
  unfolding check_truncate
  truncate_Checked = elim (ops_cases b.ops) [
    | inl e ↦ inr (inr (cc, inl (cc), ground arith))
    | inr (inl e) ↦ inr (inr (cc, inl (cc), ground arith))
    | inr (inr (inl e)) ↦ inl (e, ground arith)
    | inr (inr (inr e)) ↦ elim (Bool-cases (leb n b.allocsize)) [
      | inl fits ↦ inr (inr (cc, inr (ground arith), ground arith))
      | inr full ↦ inr (inl (e, ground arith, ground arith))
    ]
  ]

  pub write_Checked : (off : ℕ) → off + n < 2 ^ 64 → Checked b (off + n) (check_write b n off)
  unfolding check_write
  write_Checked off h = elim (ops_cases b.ops) [
    | inl e ↦ inr (inr (cc, inl (cc), ground arith))
    | inr (inl e) ↦ inr (inr (cc, inl (cc), ground arith))
    | inr (inr (inl e)) ↦ inl (e, ground arith)
    | inr (inr (inr e)) ↦ elim (Bool-cases (leb (off + n) b.allocsize)) [
      | inl fits ↦ inr (inr (cc, inr (ground arith), ground arith))
      | inr full ↦ inr (inl (e, ground arith, ground arith))
    ]
  ]

-- A check, a resize, and what is done with the room.
module _ {ℓ} {A : Type ℓ} (alloc : Allocator) (b : Buffer) (need size off : ℕ) (bytes : List ℕ)
    (f : Buffer → A) (k : Buffer → Result A) (w : IsWellformed b) (small : need < 2 ^ 64) where
  pub guarded_Does :
      (c : Result (Unit {0}))
      → Checked b need c
      → ((b1 : Buffer)
          → IsWritable b
          → Grown b need b1
          → (b' : Buffer) × (k b1 ≡ ok (f b')) × Holds b size off bytes b')
      → Does b need size off bytes f (c >> (resize alloc b need >>= k))
  guarded_Does c (inl (ro, e)) go = inl (ro, rw e)
  guarded_Does c (inr (inl (rw_, full, e))) go = inr (inl (rw_, full, rw e))
  guarded_Does c (inr (inr (writable, fits, e))) go = elim (resize-Resized alloc b need w small) [
    | inl (full, heap, r) ↦ inr (inr (inl (heap, full, rw (e, r))))
    | inr (inl (full, inl ro, r)) ↦ absurd (writable ro)
    | inr (inl (full, inr rw_, r)) ↦
        absurd (elim fits [ inl not_rw ↦ not_rw rw_ | inr room ↦ omega arith ])
    | inr (inr (b1, r, g)) ↦
        let (b', done, holds) = go b1 writable g in inr (inr (inr (b', rw (e, r) done, holds)))
  ]
